-- ===== src/Tests/Ladder.antt =====
-- The descent at a ladder of three rungs whose routing is broken.
use ai_ops.Prelude.{
  join_texts, ◌≡◌, refl, true, false, none, some, List, [], ◌∷◌, String, arith, any, str_eq, not,
}
use ai_ops.Checks.{Status, healthy, broken, CheckResult, is_valid}
use ai_ops.Evidence.{Evidence}
use ai_ops.Flows.{local_device, as_is, any_healthy, Rung, Flow}
use ai_ops.Coherence.{Coherence, refuses, refuses-eq-not-stable, stable}
use ai_ops.Descent.{resolve_devices, RungOutcome, aggregate, is_any, or_else}
use ai_ops.Descent.Aggregate.{verdict, AllValid, aggregate-verdict}
use ai_ops.Descent.Walk.{evaluate_rung, walk, Walk, run_descent, DescentResult}
use ai_ops.Descent.Finding.{
  finding_text, finding_for, of_rung, cause_not_localised, unread, refused_by, symptom_up, down,
}
use ai_ops.Descent.Localise.{nth, finding_for_top, finding_for_of_rung}
use ai_ops.Descent.Total.{Covers, Sound}
use ai_ops.Descent.Report.{nth_rung, run_descent_total, run_descent_lowest}

abbrev result_of : Status → CheckResult
result_of s = record {
  status = s;
  reason = some "seen";
  subject = some "10.0.0.1";
  evidence_keys = "PE1.bgp" ∷ [];
  device_text = none;
}

abbrev rung_of : String → Status → Rung
rung_of name s = record {
  name = name;
  check = λ e subject. result_of s;
  finding = name;
  device_scope = local_device;
  subject_rule = as_is;
  aggregation = none;
}

abbrev ladder : Flow
ladder = record {
  object_type = "bgp_session";
  descent = rung_of "session" broken ∷ rung_of "route" broken ∷ rung_of "igp" healthy ∷ [];
  findings = "session" ∷ "route" ∷ "igp" ∷ [];
}

abbrev seen : String → Status → RungOutcome
seen name s = record { rung = name; device = "PE1"; result = result_of s }

abbrev no_evidence : String → Rung → String → Evidence
no_evidence target rung subject = []

abbrev outcomes : List RungOutcome
outcomes = seen "session" broken ∷ seen "route" broken ∷ seen "igp" healthy ∷ []

abbrev walked : Walk
walked = record {
  outcomes = outcomes;
  keys = "PE1.bgp" ∷ "PE1.bgp" ∷ "PE1.bgp" ∷ [];
  stopped = none;
}

walked_through : walk ladder.descent "PE1" "10.0.0.1" no_evidence none none ≡ some walked
unfolding walk resolve_devices evaluate_rung join_texts
walked_through = refl

abbrev members : List CheckResult
members = result_of broken ∷ result_of healthy ∷ []

members_valid : AllValid members
unfolding is_valid
members_valid = (refl, (refl, tt))

aggregate-verdict_example :
    (r : CheckResult) × (aggregate (rung_of "igp" healthy) members (some any_healthy) ≡ some r)
    × (is_valid r ≡ true)
    × (r.status ≡ verdict (is_any (or_else (some any_healthy) none)) members)
aggregate-verdict_example =
    aggregate-verdict (rung_of "igp" healthy) members (some any_healthy) members_valid

finding_for_top_example :
    finding_for (seen "session" broken ∷ seen "route" healthy ∷ []) none ≡ cause_not_localised
finding_for_top_example =
    finding_for_top (seen "session" broken) (seen "route" healthy) [] none refl refl refl

blamed : finding_for outcomes none ≡ of_rung 1
unfolding finding_for
blamed = refl

finding_for_of_rung_example :
    (any unread outcomes ≡ false)
    × (refused_by none ≡ false)
    × (symptom_up outcomes ≡ false)
    × (o : RungOutcome) × (nth 1 outcomes ≡ some o)
    × (down o ≡ true)
finding_for_of_rung_example = finding_for_of_rung outcomes none 1 blamed

sound : (name : String) (s : Status) → Sound (rung_of name s)
unfolding is_valid
sound name s e subject = ground arith

run_descent_total_example :
    (r : DescentResult) × (run_descent ladder "PE1" "10.0.0.1" no_evidence none none none ≡ some r)
    × Covers ladder.descent r.outcomes
run_descent_total_example =
    run_descent_total ladder "PE1" "10.0.0.1" no_evidence none none none
      (sound "session" broken, (sound "route" broken, (sound "igp" healthy, tt)))

abbrev reported : DescentResult
reported = record {
  flow = "bgp_session";
  device = "PE1";
  subject = "10.0.0.1";
  finding = "route";
  outcomes = outcomes;
  evidence_keys = "PE1.bgp" ∷ [];
  reason = none;
  coherence = none;
}

described : run_descent ladder "PE1" "10.0.0.1" no_evidence none none none ≡ some reported
unfolding run_descent walk resolve_devices evaluate_rung finding_text finding_for join_texts
described = refl

run_descent_lowest_example :
    (rung : Rung) × (nth_rung 1 ladder.descent ≡ some rung)
    × (str_eq "route" rung.name ≡ true)
    × ("route" ≡ rung.finding)
run_descent_lowest_example =
    run_descent_lowest ladder "PE1" "10.0.0.1" no_evidence none none none
      (seen "session" broken ∷ []) (seen "route" broken) (seen "igp" healthy ∷ []) {r = reported}
      described refl refl refl refl refl refl refl

abbrev still : Coherence
still = record {
  skew = 900;
  bound = 500;
  rereads = record { rung = "session"; device = "PE1"; before = "broken"; after = "broken" } ∷ [];
}

refuses-eq-not-stable_example : refuses still ≡ not (stable still)
refuses-eq-not-stable_example = refuses-eq-not-stable still
