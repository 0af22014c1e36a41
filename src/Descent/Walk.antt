-- ===== src/Descent/Walk.antt =====
-- descent.py: a rung's verdict over its devices, the walk down the ladder, and its report. A
-- `ValueError` of `CheckResult`, which the walk lets through, is `none`.
use ai_ops.Prelude.{
  String, Option, none, some, List, [], ◌∷◌, ◌++◌, map, str_eq, str_append, if◌then◌else◌, any,
  quote, join_texts,
}
use ai_ops.Checks.{unevaluated, CheckResult, make_result, is_unevaluated}
use ai_ops.Evidence.{Evidence}
use ai_ops.Flows.{Aggregation, Rung, Flow}
use ai_ops.Coherence.{Coherence}
use ai_ops.Descent.Finding.{finding_for, finding_text}
use ai_ops.Descent.{
  RungOutcome, Resolved, Devices, devices, unresolved, resolve_devices, rung_subjects, or_else,
  aggregate,
}

abbrev pub no_objects : Rung → String → String → CheckResult
no_objects rung target subject = record {
  status = unevaluated;
  reason = some (
      str_append "no objects to check on "
        (str_append target (str_append " for rung " (quote rung.name))));
  subject = some subject;
  evidence_keys = [];
  device_text = none;
}

-- the results of one device's subjects; a fan-out without objects is unread
abbrev pub member_results :
    Rung → String → String → Evidence → List (Option String) → Option (List CheckResult)
member_results rung target subject evidence [] =
    elim (make_result (no_objects rung target subject)) [ none ↦ none | some r ↦ some (r ∷ []) ]
member_results rung target subject evidence (s ∷ ss) = some (map (rung.check evidence) (s ∷ ss))

abbrev pub prepend :
    Option (List CheckResult)
    → Option (List CheckResult × Option Aggregation)
    → Option (List CheckResult × Option Aggregation)
prepend none _ = none
prepend (some rs) none = none
prepend (some rs) (some (rest, how)) = some (rs ++ rest, how)

-- the loop over the devices: every member's result, and the aggregation of the last override
unfoldable pub collect_members :
    Rung
    → List String
    → String
    → (String → Evidence)
    → Option String
    → Option Aggregation
    → Option (List CheckResult × Option Aggregation)
unfolding make_result rung_subjects
collect_members rung [] subject evidence_for origin how = some ([], how)
collect_members rung (target ∷ targets) subject evidence_for origin how =
    let (subjects, override) =
      rung_subjects rung.subject_rule subject (evidence_for target) origin in
    prepend (member_results rung target subject (evidence_for target) subjects)
      (collect_members rung targets subject evidence_for origin (or_else override how))

unfoldable pub evaluate_rung :
    Rung → List String → String → (String → Evidence) → Option String → Option CheckResult
unfolding collect_members aggregate
evaluate_rung rung targets subject evidence_for origin =
    elim (collect_members rung targets subject evidence_for origin none) [
      | none ↦ none
      | some (results, how) ↦ aggregate rung results how
    ]

-- what the loop over the rungs leaves: outcomes, evidence keys, `stopped_reason`
pub record Walk : Type 0 where
  pub outcomes : List RungOutcome
  pub keys : List String
  pub stopped : Option String

abbrev pub nothing_walked : Walk
nothing_walked = record { outcomes = []; keys = []; stopped = none }

abbrev pub unresolved_result : String → CheckResult
unresolved_result why = record {
  status = unevaluated;
  reason = some why;
  subject = none;
  evidence_keys = [];
  device_text = none;
}

abbrev pub outcome_of : Rung → String → CheckResult → RungOutcome
outcome_of rung device result = record { rung = rung.name; device = device; result = result }

-- the walk stops at this outcome
abbrev pub stop_at : RungOutcome → Option String → Walk
stop_at o why = record { outcomes = o ∷ []; keys = o.result.evidence_keys; stopped = why }

abbrev pub go_on : RungOutcome → Walk → Walk
go_on o w = record {
  outcomes = o ∷ w.outcomes;
  keys = o.result.evidence_keys ++ w.keys;
  stopped = w.stopped;
}

-- one rung was evaluated; the walk of the rungs below is used unless this one could not be read
abbrev pub after_rung : Option CheckResult → Rung → String → Option Walk → Option Walk
after_rung none rung where_ below = none
after_rung (some r) rung where_ below =
    if is_unevaluated r.status
    then some (stop_at (outcome_of rung where_ r) r.reason)
    else elim below [ none ↦ none | some w ↦ some (go_on (outcome_of rung where_ r) w) ]

abbrev pub at_unresolved : Rung → String → String → Option Walk
at_unresolved rung device why = elim (make_result (unresolved_result why)) [
  | none ↦ none
  | some r ↦ some (stop_at (outcome_of rung device r) (some why))
]

-- one rung, with the walk of the rungs below it
abbrev pub visit :
    Devices
    → Rung
    → String
    → String
    → (String → Rung → String → Evidence)
    → Option String
    → Option Walk
    → Option Walk
visit (unresolved why) rung device subject collector origin below = at_unresolved rung device why
visit (devices ds) rung device subject collector origin below =
    after_rung (evaluate_rung rung ds subject (λ target. collector target rung subject) origin) rung
      (join_texts ", " ds) below

-- `for rung in flow.descent`
unfoldable pub walk :
    List Rung
    → String
    → String
    → (String → Rung → String → Evidence)
    → Option (String → Resolved)
    → Option String
    → Option Walk
walk [] device subject collector resolver origin = some nothing_walked
walk (rung ∷ rungs) device subject collector resolver origin =
    visit (resolve_devices rung device subject resolver) rung device subject collector origin
      (walk rungs device subject collector resolver origin)

-- `tuple(dict.fromkeys(keys))`
abbrev from_keys : List String → List String → List String
from_keys seen [] = seen
from_keys seen (k ∷ ks) = from_keys (if any (str_eq k) seen then seen else seen ++ k ∷ []) ks

pub record DescentResult : Type 0 where
  pub flow : String
  pub device : String
  pub subject : String
  pub finding : String
  pub outcomes : List RungOutcome
  pub evidence_keys : List String
  pub reason : Option String
  pub coherence : Option Coherence

abbrev pub verdict_on : Option (List RungOutcome → Coherence) → Walk → Option Coherence
verdict_on none w = none
verdict_on (some check) w = some (check w.outcomes)

abbrev pub report : Flow → String → String → Walk → Option Coherence → String → DescentResult
report f d s w c finding = record {
  flow = f.object_type;
  device = d;
  subject = s;
  finding = finding;
  outcomes = w.outcomes;
  evidence_keys = from_keys [] w.keys;
  reason = w.stopped;
  coherence = c;
}

abbrev pub ended :
    Flow → String → String → Walk → Option Coherence → Option String → Option DescentResult
ended f d s w c none = none
ended f d s w c (some finding) = some (report f d s w c finding)

abbrev pub concluded :
    Flow
    → String
    → String
    → Option (List RungOutcome → Coherence)
    → Option Walk
    → Option DescentResult
concluded f d s check none = none
concluded f d s check (some w) =
    ended f d s w (verdict_on check w)
      (finding_text f (finding_for w.outcomes (verdict_on check w)))

unfoldable pub run_descent :
    Flow
    → String
    → String
    → (String → Rung → String → Evidence)
    → Option (String → Resolved)
    → Option (List RungOutcome → Coherence)
    → Option String
    → Option DescentResult
run_descent f device subject collector resolver check origin =
    concluded f device subject check (walk f.descent device subject collector resolver origin)
