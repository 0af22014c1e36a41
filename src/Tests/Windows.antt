-- ===== src/Tests/Windows.antt =====
-- Silences, and the admission of event runs, at concrete data.
use ai_ops.Prelude.{
  str_eq, if◌then◌else◌, ℕ, ◌≡◌, ◌≢◌, ◌≤◌, refl, true, false, Option, none, some, List, [], ◌∷◌,
  String, arith, All, map, keep, length, count_if,
}
use ai_ops.Health.{
  critical, severity_rank, Silence, find_silence, HealthFinding, Verdict, apply_silences,
}
use ai_ops.Health.Find.{Answers, find_silence-Answers}
use ai_ops.Health.Apply.{worst, tagged, loud, apply_silences-findings, apply_silences-severity}
use ai_ops.Admission.Window.{in_window, attempts}
use ai_ops.Admission.Window.Rate.{no_tries, attempts-le-limit}
use ai_ops.Result.{Moment, aware}
use ai_ops.Health.Parse.{parse_mapping, Mapping, text, loaded, parse_silences}
use ai_ops.Admission.{
  Limits, EventFile, refused_for, written, event_idempotency, admit_event_run, finish_event_run,
  with_run, Call, admit_run, finish_run, calls, nothing_yet, device_limit, fabric_limit, on_device,
  recent_start, entry_of, accepted_entry,
}
use ai_ops.Admission.Budget.{recent_and, calls-within_budget}
use ai_ops.Admission.Identity.{admit_event_run_exclusive, admit_event_run-finish_event_run}

abbrev silence_of : String → Option String → Silence
silence_of id rule = record {
  id = id;
  reason = "upgrade";
  created_by = "ops";
  expires_at = 100;
  device = some "PE1";
  rule = rule;
  subject = none;
  starts_at = some 10;
}

abbrev table : List Silence
table = silence_of "s1" none ∷ silence_of "s2" (some "bgp_down") ∷ []

abbrev bgp_down : HealthFinding
bgp_down = record {
  rule = some "bgp_down";
  subject = some "10.0.0.1";
  severity = critical;
  detail = "idle";
}

abbrev verdict : Verdict
verdict = record { device = "PE1"; findings = bgp_down ∷ []; severity = critical }

find_silence-Answers_example :
    Answers
      (find_silence table "PE1" (some "bgp_down") (some "10.0.0.1") 50)
      table
      "PE1"
      (some "bgp_down")
      (some "10.0.0.1")
      50
find_silence-Answers_example =
    find_silence-Answers table "PE1" (some "bgp_down") (some "10.0.0.1") 50

apply_silences-findings_example :
    ((apply_silences verdict table 50).findings ≡ map (tagged table "PE1" 50) (bgp_down ∷ []))
    × ((apply_silences verdict table 50).raw_severity ≡ critical)
apply_silences-findings_example = apply_silences-findings verdict table 50

apply_silences-severity_example :
    ((apply_silences verdict table 50).severity
      ≡ worst (keep (loud table "PE1" 50) (bgp_down ∷ [])))
    × All
        (λ f. severity_rank f.severity ≤ severity_rank (apply_silences verdict table 50).severity)
        (keep (loud table "PE1" 50) (bgp_down ∷ []))
    × (severity_rank (apply_silences verdict table 50).severity
        ≤ severity_rank (worst (bgp_down ∷ [])))
apply_silences-severity_example = apply_silences-severity verdict table 50

abbrev limits : Limits
limits = record {
  window = 3600000000;
  idempotency_window = 3600000000;
  max_per_device = 6;
  max_fabric = 30;
}

abbrev asked : List (ℕ × Call)
asked = (5, admit_run "e1" "PE1") ∷ (1, finish_run "e1" false) ∷ (1, admit_run "e1" "PE1") ∷ []

calls-within_budget_example :
    (count_if
        (recent_and limits.window (calls limits 0 asked nothing_yet).1 (on_device "PE1"))
        (calls limits 0 asked nothing_yet).0.admissions
      ≤ device_limit limits)
    × (length (
          keep
            (recent_start limits.window (calls limits 0 asked nothing_yet).1)
            (calls limits 0 asked nothing_yet).0.admissions)
        ≤ fabric_limit limits)
calls-within_budget_example = calls-within_budget limits 0 asked "PE1"

abbrev no_runs : EventFile
no_runs = record { events = []; starts = [] }

abbrev one_run : EventFile
one_run = record {
  events = ("e1", some (accepted_entry "PE1" 5)) ∷ [];
  starts = some (record { timestamp = some 5; device = "PE1"; event_id = "e1" }) ∷ [];
}

let_through : admit_event_run limits 5 "e1" "PE1" no_runs ≡ written one_run
unfolding admit_event_run with_run
let_through = refl

admit_event_run_exclusive_example :
    admit_event_run limits 9 "e1" "PE2" one_run ≡ refused_for event_idempotency
admit_event_run_exclusive_example =
    admit_event_run_exclusive limits 5 9 "e1" "PE1" "PE2" no_runs let_through (omega arith)
      (omega arith)

there : entry_of "e1" one_run.events ≡ some (accepted_entry "PE1" 5)
unfolding entry_of
there = refl

admit_event_run-finish_event_run_example :
    (admit_event_run limits 9 "e1" "PE1" (finish_event_run "e1" true 7 one_run)
      ≡ refused_for event_idempotency)
    × (admit_event_run limits 9 "e1" "PE1" (finish_event_run "e1" false 7 one_run)
        ≢ refused_for event_idempotency)
admit_event_run-finish_event_run_example =
    admit_event_run-finish_event_run limits 7 9 "e1" "PE1" (accepted_entry "PE1" 5) one_run there
      (omega arith)

abbrev waits : List ℕ
waits = 1 ∷ 2 ∷ 3 ∷ 60000000 ∷ []

attempts-le-limit_example :
    count_if
      (in_window 60000000 (attempts 2 60000000 waits (no_tries 7)).at)
      (attempts 2 60000000 waits (no_tries 7)).granted
    ≤ 2
attempts-le-limit_example = attempts-le-limit 2 60000000 7 waits

abbrev iso : String → Option Moment
iso t = if str_eq t "2026-08-20T18:00:00+00:00" then some (aware 900) else none

abbrev window_entry : Mapping
window_entry =
    ("reason", text " upgrade ")
    ∷ ("created_by", text "ops")
    ∷ ("expires_at", text "2026-08-20T18:00:00Z")
    ∷ []

abbrev window_silence : Silence
window_silence = record {
  id = "silence-0-any-any";
  reason = "upgrade";
  created_by = "ops";
  expires_at = 900;
  device = none;
  rule = none;
  subject = none;
  starts_at = none;
}

file_loads : parse_silences iso (some (some window_entry ∷ [])) ≡ loaded (window_silence ∷ [])
unfolding parse_silences parse_mapping
file_loads = refl
