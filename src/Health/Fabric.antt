-- ===== src/Health/Fabric.antt =====
-- health.py: `apply_silences_to_fabric`, every device's verdict silenced and the roll-up redone. The
-- devices that were silenced are kept in the table's order, which the source then sorts.
use ai_ops.Prelude.{
  ℕ, suc, ◌+◌, ◌≤◌, ◌≡◌, ◌⊎◌, inl, inr, leb, Bool-cases, refl, sym, ap, ◌∙◌, List, [], ◌∷◌, ◌++◌,
  String, All, length, arith, if◌then◌else◌,
}
use mathlib.Core.List.{append_assoc, append-nil}
use ai_ops.Health.{
  Severity, okay, info, warning, unreachable, critical, severity_rank, max_severity, Silence,
  Verdict, SilencedVerdict, apply_silences,
}

-- a verdict for each device
abbrev pub Devices : Type 0
Devices = List (String × Verdict)

abbrev pub SilencedDevices : Type 0
SilencedDevices = List (String × SilencedVerdict)

-- `by_severity`
pub record BySeverity : Type 0 where
  pub critical_devices : ℕ
  pub unreachable_devices : ℕ
  pub warning_devices : ℕ
  pub info_devices : ℕ
  pub okay_devices : ℕ

abbrev pub bump : Severity → BySeverity → BySeverity
bump critical b = record b { critical_devices = suc b.critical_devices }
bump unreachable b = record b { unreachable_devices = suc b.unreachable_devices }
bump warning b = record b { warning_devices = suc b.warning_devices }
bump info b = record b { info_devices = suc b.info_devices }
bump okay b = record b { okay_devices = suc b.okay_devices }

-- the variables of the loop over the devices
pub record Rollup : Type 0 where
  pub fabric_severity : Severity
  pub by_severity : BySeverity
  pub silenced_devices : List String

unfoldable pub rolled : String → SilencedVerdict → Rollup → Rollup
unfolding max_severity
rolled name v r = record {
  fabric_severity = max_severity r.fabric_severity v.severity;
  by_severity = bump v.severity r.by_severity;
  silenced_devices = r.silenced_devices ++ (if v.silences_applied then name ∷ [] else []);
}

unfoldable pub roll_up : SilencedDevices → Rollup → Rollup
unfolding rolled
roll_up [] r = r
roll_up ((name, v) ∷ ds) r = roll_up ds (rolled name v r)

abbrev pub no_severities : BySeverity
no_severities = record {
  critical_devices = 0;
  unreachable_devices = 0;
  warning_devices = 0;
  info_devices = 0;
  okay_devices = 0;
}

abbrev pub no_rollup : Rollup
no_rollup = record { fabric_severity = okay; by_severity = no_severities; silenced_devices = [] }

pub record FabricVerdict : Type 0 where
  pub devices : SilencedDevices
  pub rollup : Rollup

abbrev pub silenced_all : List Silence → ℕ → Devices → SilencedDevices
silenced_all silences now [] = []
silenced_all silences now ((name, v) ∷ ds) =
    (name, apply_silences v silences now) ∷ silenced_all silences now ds

unfoldable pub apply_silences_to_fabric : Devices → List Silence → ℕ → FabricVerdict
unfolding roll_up
apply_silences_to_fabric devices silences now =
    let silenced = silenced_all silences now devices in
    record { devices = silenced; rollup = roll_up silenced no_rollup }

abbrev total : BySeverity → ℕ
total b =
    b.critical_devices + b.unreachable_devices + b.warning_devices + b.info_devices + b.okay_devices

abbrev pub silenced_names : SilencedDevices → List String
silenced_names [] = []
silenced_names ((name, v) ∷ ds) =
    (if v.silences_applied then name ∷ [] else []) ++ silenced_names ds

total-bump : (s : Severity) (b : BySeverity) → total (bump s b) ≡ suc (total b)
total-bump s b = ground arith

max_severity-le-left : (a b : Severity) → severity_rank a ≤ severity_rank (max_severity a b)
unfolding max_severity
max_severity-le-left a b = ground arith

max_severity-le-right : (a b : Severity) → severity_rank b ≤ severity_rank (max_severity a b)
unfolding max_severity
max_severity-le-right a b = ground arith

rolled-severity :
    (name : String) (v : SilencedVerdict) (r : Rollup)
    → (rolled name v r).fabric_severity ≡ max_severity r.fabric_severity v.severity
unfolding rolled
rolled-severity name v r = refl

roll_up-le :
    (ds : SilencedDevices) (r : Rollup)
    → severity_rank r.fabric_severity ≤ severity_rank (roll_up ds r).fabric_severity
unfolding roll_up rolled
roll_up-le [] r = omega arith
roll_up-le ((name, v) ∷ ds) r =
    let here = max_severity-le-left r.fabric_severity v.severity in
    let rest = roll_up-le ds (rolled name v r) in omega arith

roll_up-bounds :
    (ds : SilencedDevices) (r : Rollup)
    → All (λ d. severity_rank (d.1).severity ≤ severity_rank (roll_up ds r).fabric_severity) ds
unfolding roll_up rolled
roll_up-bounds [] r = tt
roll_up-bounds ((name, v) ∷ ds) r =
    let here = max_severity-le-right r.fabric_severity v.severity in
    let rest = roll_up-le ds (rolled name v r) in (omega arith, roll_up-bounds ds (rolled name v r))

-- some device has the severity
abbrev pub IsAttained : Severity → SilencedDevices → Type 0
IsAttained s [] = ⊥
IsAttained s ((name, v) ∷ ds) = (s ≡ v.severity) ⊎ IsAttained s ds

max_severity-cases : (a b : Severity) → (max_severity a b ≡ a) ⊎ (max_severity a b ≡ b)
unfolding max_severity
max_severity-cases a b = elim (Bool-cases (leb (severity_rank b) (severity_rank a))) [
  | inl h ↦ inl (ap (λ t. if t then a else b) h)
  | inr h ↦ inr (ap (λ t. if t then a else b) h)
]

roll_up-IsAttained :
    (ds : SilencedDevices) (r : Rollup)
    → ((roll_up ds r).fabric_severity ≡ r.fabric_severity)
      ⊎ IsAttained (roll_up ds r).fabric_severity ds
unfolding roll_up rolled
roll_up-IsAttained [] r = inl refl
roll_up-IsAttained ((name, v) ∷ ds) r = elim (roll_up-IsAttained ds (rolled name v r)) [
  | inr there ↦ inr (inr there)
  | inl here ↦ elim (max_severity-cases r.fabric_severity v.severity) [
    | inl old ↦ inl (here ∙ old)
    | inr new ↦ inr (inl (here ∙ new))
  ]
]

roll_up-total :
    (ds : SilencedDevices) (r : Rollup)
    → total (roll_up ds r).by_severity ≡ total r.by_severity + length ds
unfolding roll_up rolled
roll_up-total [] r = omega arith
roll_up-total ((name, v) ∷ ds) r =
    let rest = roll_up-total ds (rolled name v r) in
    let here = total-bump v.severity r.by_severity in omega arith

roll_up-names :
    (ds : SilencedDevices) (r : Rollup)
    → (roll_up ds r).silenced_devices ≡ r.silenced_devices ++ silenced_names ds
unfolding roll_up rolled
roll_up-names [] r = sym (append-nil r.silenced_devices)
roll_up-names ((name, v) ∷ ds) r =
    roll_up-names ds (rolled name v r)
    ∙ append_assoc r.silenced_devices (if v.silences_applied then name ∷ [] else [])
        (silenced_names ds)

length-silenced_all :
    (silences : List Silence) (now : ℕ) (ds : Devices)
    → length (silenced_all silences now ds) ≡ length ds
length-silenced_all silences now [] = refl
length-silenced_all silences now ((name, v) ∷ ds) = ap suc (length-silenced_all silences now ds)

-- The fabric's new severity is the worst of its devices' after silencing: none is worse, and it is
-- `ok` or some device's. Every device is counted once under its severity, and the devices listed as
-- silenced are those with a silenced finding.
pub apply_silences_to_fabric-rollup :
    (devices : Devices) (silences : List Silence) (now : ℕ)
    → All
        (λ d.
          severity_rank (d.1).severity
          ≤ severity_rank (apply_silences_to_fabric devices silences now).rollup.fabric_severity)
        (silenced_all silences now devices)
      × (((apply_silences_to_fabric devices silences now).rollup.fabric_severity ≡ okay)
          ⊎ IsAttained
              (apply_silences_to_fabric devices silences now).rollup.fabric_severity
              (silenced_all silences now devices))
      × (total (apply_silences_to_fabric devices silences now).rollup.by_severity ≡ length devices)
      × ((apply_silences_to_fabric devices silences now).rollup.silenced_devices
          ≡ silenced_names (silenced_all silences now devices))
unfolding apply_silences_to_fabric
apply_silences_to_fabric-rollup devices silences now =
    let ds = silenced_all silences now devices in
    let counted = roll_up-total ds no_rollup in
    let same = length-silenced_all silences now devices in
    (
      roll_up-bounds ds no_rollup,
      roll_up-IsAttained ds no_rollup,
      omega arith,
      roll_up-names ds no_rollup,
    )
