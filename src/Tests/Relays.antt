-- ===== src/Tests/Relays.antt =====
-- A finding relayed twice, its owners, and diagnoses that share a cause.
use ai_ops.Health.{find_silence}
use ai_ops.Relay.{relay_loud}
use ai_ops.Prelude.{
  ◌<◌, ◌≤◌, ◌+◌, ◌≡◌, ◌⊎◌, refl, true, false, Option, none, some, List, [], ◌∷◌, String, map, keep,
  All, length, ◌&&◌,
}
use ai_ops.Relay.Ownership.{
  Owner, OwnershipRule, OwnershipTable, RoutingResult, table_is_valid, matching, resolve_ownership,
}
use ai_ops.Relay.Routes.{Routes, resolve_ownership-Routes}
use ai_ops.Relay.{Delivery, Relayed, Finding, relay, sent, suppressed, signature_of}
use ai_ops.Relay.Suppression.{
  StateFile, holds, Prior, prior_of, load_state, dedup_key, record_notification, inside_window,
  no_prior,
}
use ai_ops.Relay.Repeats.{relay-relay}
use ai_ops.Relay.Updates.{IsRecent, relay_suppressed}
use ai_ops.Correlation.{DiagnosisRef, correlate_by_cause}
use ai_ops.Correlation.Causes.{
  IsShared, is_caused, is_absent, of_cause, has_incident, correlate_by_cause-IsShared,
}

abbrev noc : Owner
noc = record {
  name = "noc";
  channel = "telegram:1";
  escalate_to = some "lead";
  escalate_after = some 60;
}

abbrev lead : Owner
lead = record { name = "lead"; channel = "telegram:2"; escalate_to = none; escalate_after = none }

abbrev rule : OwnershipRule
rule = record { name = "core"; owner = "noc"; device = some "P1"; role = none; finding = none }

abbrev table : OwnershipTable
table = record { rules = rule ∷ []; owners = noc ∷ lead ∷ []; default_owner = "lead" }

resolve_ownership-Routes_example :
    (r : RoutingResult) × (resolve_ownership table "P1" none (some "bgp_down") (some 90) ≡ some r)
    × Routes table (matching table "P1" none (some "bgp_down")) (some 90) r
unfolding table_is_valid
resolve_ownership-Routes_example =
    resolve_ownership-Routes table "P1" none (some "bgp_down") (some 90) refl

abbrev finding : Finding
finding = record {
  device = "P1";
  subject = "10.0.0.1";
  finding = "bgp_down";
  rung = some "interface";
  role = none;
  age = some 90;
}

abbrev delivered : Owner → Delivery
delivered owner = record { attempted = true; ok = true }

abbrev routed : RoutingResult
routed = record { owners = noc ∷ lead ∷ []; matched_rule = some "core"; escalated = true }

abbrev first : Relayed × Option StateFile
first = (
  record {
    decision = sent;
    silence = none;
    dedup = record {
      evaluated = true;
      suppressed = false;
      state_readable = some true;
      reason = no_prior;
    };
    routing = routed;
    deliveries = delivered noc ∷ delivered lead ∷ [];
  },
  some (record_notification true (holds []) "P1" "10.0.0.1" (signature_of finding) 100),
)

abbrev second : Relayed × Option StateFile
second = (
  record {
    decision = suppressed;
    silence = none;
    dedup = record {
      evaluated = true;
      suppressed = true;
      state_readable = some true;
      reason = inside_window;
    };
    routing = routed;
    deliveries = [];
  },
  first.1,
)

first_result : relay delivered true (some (holds [])) [] table 50 finding 100 ≡ some first
unfolding relay relay_loud
first_result = refl

second_result : relay delivered true first.1 [] table 50 finding 120 ≡ some second
unfolding relay relay_loud record_notification
second_result = refl

relay-relay_example :
    ((120 < 100 + 50)
      × (second.0.decision ≡ suppressed)
      × (second.0.deliveries ≡ [])
      × (second.1 ≡ first.1))
    ⊎ ((100 + 50 ≤ 120) × (second.0.deliveries ≡ map delivered second.0.routing.owners))
unfolding find_silence
relay-relay_example =
    relay-relay delivered (holds []) [] table 50 finding 100 {first = first} first_result refl
      delivered true [] table 50 120 {second = second} refl second_result

relay_suppressed_example :
    (second.0.deliveries ≡ [])
    × (second.1 ≡ first.1)
    × ((p : Prior) × (prior_of
            (load_state
              (record_notification true (holds []) "P1" "10.0.0.1" (signature_of finding) 100)).0
            (dedup_key "P1" "10.0.0.1")
          ≡ some p)
        × IsRecent p (signature_of finding) 50 120)
relay_suppressed_example =
    relay_suppressed delivered true
      (record_notification true (holds []) "P1" "10.0.0.1" (signature_of finding) 100) [] table 50
      finding 120 {x = second} second_result refl

abbrev diagnosis : String → Option String → DiagnosisRef
diagnosis id subject = record {
  id = id;
  device = "PE1";
  subject = "10.0.0.1";
  flow = "bgp_session";
  finding = "interface_line_down";
  cause_rung = some "interface";
  cause_device = some "PE1";
  cause_subject = subject;
  recorded_at = none;
  run_id = some "r1";
}

abbrev diagnoses : List DiagnosisRef
diagnoses = diagnosis "a" (some "Gi0/0") ∷ diagnosis "b" none ∷ diagnosis "c" (some "Gi0/0") ∷ []

correlate_by_cause-IsShared_example :
    All (IsShared diagnoses) (correlate_by_cause diagnoses).0
    × ((k : List String)
        → (length (of_cause k diagnoses) ≤ 1)
          ⊎ (has_incident k (correlate_by_cause diagnoses).0 ≡ true))
    × ((correlate_by_cause diagnoses).1
        ≡ keep (λ d. is_caused d && is_absent d.cause_subject) diagnoses)
    × ((correlate_by_cause diagnoses).2 ≡ keep (λ d. is_caused d && is_absent d.run_id) diagnoses)
correlate_by_cause-IsShared_example = correlate_by_cause-IsShared diagnoses
