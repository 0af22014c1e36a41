-- ===== src/Relay/Suppression.antt =====
-- relay_policy.py: the de-duplication of a finding by its state file, which may be unreadable.
use ai_ops.Prelude.{
  ℕ, suc, ◌+◌, String, str_append, Bool, true, false, ◌&&◌, Option, none, some, List, [], ◌∷◌,
  str_eq, opt_str_eq, ltb, if◌then◌else◌,
}
use ai_ops.Result.{Moment, aware, naive}

-- `_dedup_key`
unfoldable pub dedup_key : String → String → String
dedup_key device subject = str_append device (str_append "\u{1f}" subject)

-- `[finding, (cause or {}).get("rung")]`
abbrev pub Signature : Type 0
Signature = String × Option String

abbrev pub same_signature : Option Signature → Signature → Bool
same_signature none s = false
same_signature (some (f, r)) (g, q) = str_eq f g && opt_str_eq r q

-- an entry of the state file: a signature of another form is none, and so is a time that does not
-- read
pub record Prior : Type 0 where
  pub signature : Option Signature
  pub last_notified_at : Option Moment
  pub notify_count : ℕ

-- the keys whose value is a mapping
abbrev pub State : Type 0
State = List (String × Prior)

-- a file that is absent or blank holds no entries
pub data StateFile : Type 0 where
  unreadable : StateFile
  holds : State → StateFile

-- `_load_state`
unfoldable pub load_state : StateFile → State × Bool
load_state unreadable = ([], false)
load_state (holds s) = (s, true)

unfoldable pub prior_of : State → String → Option Prior
prior_of [] key = none
prior_of ((k, p) ∷ s) key = let rest = prior_of s key in if str_eq k key then some p else rest

unfoldable pub put_prior : State → String → Prior → State
put_prior [] key p = (key, p) ∷ []
put_prior ((k, q) ∷ s) key p =
    let rest = put_prior s key p in if str_eq k key then (k, p) ∷ s else (k, q) ∷ rest

-- the branches of `evaluate_dedup`, by their `reason`
pub data DedupReason : Type 0 where
  off no_prior signature_changed no_usable_time inside_window window_over before_dedup : DedupReason

pub record Dedup : Type 0 where
  pub evaluated : Bool
  pub suppressed : Bool
  pub state_readable : Option Bool
  pub reason : DedupReason

abbrev pub judged : Bool → Bool → DedupReason → Dedup
judged readable suppressed reason = record {
  evaluated = true;
  suppressed = suppressed;
  state_readable = some readable;
  reason = reason;
}

abbrev pub judge_time : Option Moment → Bool → ℕ → ℕ → Dedup
judge_time none readable window now = judged false false no_usable_time
judge_time (some naive) readable window now = judged false false no_usable_time
judge_time (some (aware last)) readable window now =
    if ltb now (last + window)
    then judged readable true inside_window
    else judged readable false window_over

abbrev pub judge : Option Prior → Bool → Signature → ℕ → ℕ → Dedup
judge none readable signature window now = judged readable false no_prior
judge (some prior) readable signature window now =
    if same_signature prior.signature signature
    then judge_time prior.last_notified_at readable window now
    else judged readable false signature_changed

-- the state file is none where de-duplication is off
unfoldable pub evaluate_dedup : Option StateFile → String → String → Signature → ℕ → ℕ → Dedup
unfolding load_state prior_of dedup_key
evaluate_dedup none device subject signature window now = record {
  evaluated = false;
  suppressed = false;
  state_readable = none;
  reason = off;
}
evaluate_dedup (some file) device subject signature window now =
    let (state, readable) = load_state file in
    judge (prior_of state (dedup_key device subject)) readable signature window now

abbrev pub count_of : Option Prior → ℕ
count_of none = 0
count_of (some prior) = prior.notify_count

abbrev pub noted : Signature → ℕ → ℕ → Prior
noted signature now count = record {
  signature = some signature;
  last_notified_at = some (aware now);
  notify_count = suc count;
}

-- a write that fails leaves the file
unfoldable pub record_notification : Bool → StateFile → String → String → Signature → ℕ → StateFile
unfolding load_state prior_of put_prior dedup_key
record_notification writable file device subject signature now =
    let (state, readable) = load_state file in
    let key = dedup_key device subject in
    if writable
    then holds (put_prior state key (noted signature now (count_of (prior_of state key))))
    else file
