-- ===== src/Admission/Window.antt =====
-- admission.py: the sliding window of a budget file, and the two budgets of active probes. Times and
-- windows are in microseconds. The file of a device is looked up by its sanitized name.
pub mod Rate
use ai_ops.Prelude.{
  ℕ, ◌+◌, max, String, Bool, true, false, Option, none, some, List, [], ◌∷◌, ◌++◌, str_eq, leb,
  if◌then◌else◌, keep, length,
}

-- the lines of a budget file, in order; a line that is no number is none
abbrev pub Stamps : Type 0
Stamps = List (Option ℕ)

-- `timestamp >= cutoff`
abbrev pub in_window : ℕ → ℕ → Option ℕ → Bool
in_window window now none = false
in_window window now (some t) = leb now (t + window)

abbrev pub stamped : ℕ → ℕ → Stamps → Stamps
stamped window now file = keep (in_window window now) file ++ some now ∷ []

-- `_check_and_record_window`: the answer, and the file afterwards
unfoldable pub check_and_record_window : (limit window now : ℕ) → Stamps → Bool × Stamps
check_and_record_window limit window now file =
    if leb limit (length (keep (in_window window now) file))
    then (false, file)
    else (true, stamped window now file)

-- the budget files: one for each device, and the fabric's
pub record ProbeFiles : Type 0 where
  pub device_file : String → Stamps
  pub fabric_file : Stamps

pub data ProbeAnswer : Type 0 where
  probe_device probe_fabric probe_allowed : ProbeAnswer

abbrev pub with_device : String → Stamps → ProbeFiles → ProbeFiles
with_device d file files = record files {
  device_file = λ x. if str_eq x d then file else files.device_file x;
}

abbrev with_fabric : Bool × Stamps → ProbeFiles → ProbeAnswer × ProbeFiles
with_fabric (false, file) files = (probe_fabric, files)
with_fabric (true, file) files = (probe_allowed, record files { fabric_file = file })

abbrev on_fabric : ℕ → ℕ → ℕ → String → Bool × Stamps → ProbeFiles → ProbeAnswer × ProbeFiles
on_fabric max_fabric window now d (false, file) files = (probe_device, files)
on_fabric max_fabric window now d (true, file) files =
    with_fabric (check_and_record_window (max 1 max_fabric) window now files.fabric_file)
      (with_device d file files)

-- `check_probe_budget`: a refusal by the fabric leaves the device's record
unfoldable pub check_probe_budget :
    (max_device max_fabric window now : ℕ) (device : String) → ProbeFiles → ProbeAnswer × ProbeFiles
unfolding check_and_record_window
check_probe_budget max_device max_fabric window now device files =
    on_fabric max_fabric window now device
      (check_and_record_window (max 1 max_device) window now (files.device_file device)) files

-- One file over several attempts, each with the time that passed before it: the file, the stamps
-- of the attempts that were let through, and the time of the last attempt.
pub record Tries : Type 0 where
  pub file : Stamps
  pub granted : Stamps
  pub at : ℕ

abbrev pub answered : ℕ → Tries → Bool × Stamps → Tries
answered now t (false, file) = record { file = file; granted = t.granted; at = now }
answered now t (true, file) = record { file = file; granted = t.granted ++ some now ∷ []; at = now }

unfoldable pub attempts : (limit window : ℕ) → List ℕ → Tries → Tries
unfolding check_and_record_window
attempts limit window [] t = t
attempts limit window (wait ∷ waits) t =
    attempts limit window waits
      (answered (t.at + wait) t (check_and_record_window limit window (t.at + wait) t.file))
