-- ===== src/Health/Rules/Evaluate.antt =====
-- checks.py: `evaluate_device` and `evaluate_fabric`. The names of intents are sorted, so a sorted list
-- of them is what is kept of their four in order.
use ai_ops.Prelude.{
  String, Bool, true, false, not, ◌&&◌, ◌||◌, Option, none, some, List, [], ◌∷◌, ◌++◌, str_eq,
  is_empty, any, keep, map, if◌then◌else◌,
}
use ai_ops.Checks.{is_nil}
use ai_ops.Health.{
  Severity, okay, warning, unreachable, max_severity, HealthFinding, Verdict, Counts, no_counts,
  count,
}
use ai_ops.Health.Fabric.{BySeverity, bump, no_severities}
use ai_ops.Health.Rules.{
  Device, Role, Intent, isis_intent, bgp_intent, interfaces_intent, sr_intent, Evidence, Reason,
  not_supported, collection_failed, unparsed, uneval_reason, RuleContext, build_context,
}
use ai_ops.Health.Rules.Table.{Fragment, Rule, all_rules}

abbrev pub intent_name : Intent → String
intent_name isis_intent = "isis"
intent_name bgp_intent = "bgp"
intent_name interfaces_intent = "interfaces"
intent_name sr_intent = "sr"

abbrev pub by_name : List Intent
by_name = bgp_intent ∷ interfaces_intent ∷ isis_intent ∷ sr_intent ∷ []

abbrev pub reason_of : Evidence → Intent → Option Reason
reason_of e isis_intent = uneval_reason e.isis
reason_of e bgp_intent = uneval_reason e.bgp
reason_of e interfaces_intent = uneval_reason e.interfaces
reason_of e sr_intent = uneval_reason e.sr

abbrev pub is_unsupported : Option Reason → Bool
is_unsupported (some not_supported) = true
is_unsupported _ = false

abbrev pub is_failed_collection : Option Reason → Bool
is_failed_collection (some collection_failed) = true
is_failed_collection _ = false

abbrev pub is_failed_parse : Option Reason → Bool
is_failed_parse (some unparsed) = true
is_failed_parse _ = false

abbrev pub is_read : Option Reason → Bool
is_read none = true
is_read (some r) = false

unfoldable pub intents_where : (Option Reason → Bool) → Evidence → List Intent
intents_where p e = keep (λ i. p (reason_of e i)) by_name

abbrev pub opt_intent_name : Option Intent → String
opt_intent_name none = ""
opt_intent_name (some i) = intent_name i

abbrev pub or_severity : Option Severity → Severity → Severity
or_severity none s = s
or_severity (some own) s = own

-- of the other entries of a finding, `detail` keeps the intent
abbrev pub finding_of : Rule → Fragment → HealthFinding
finding_of r raw = record {
  rule = some r.name;
  subject = raw.subject;
  severity = or_severity raw.severity r.severity;
  detail = opt_intent_name raw.intent;
}

-- `for rule in ALL_RULES: for raw in rule.fn(ctx)`
unfoldable pub rule_findings : RuleContext → List Rule → List HealthFinding
rule_findings ctx [] = []
rule_findings ctx (r ∷ rs) = map (finding_of r) (r.fn ctx) ++ rule_findings ctx rs

abbrev pub gap_finding : String → Severity → Option Intent → HealthFinding
gap_finding name severity i = record {
  rule = some name;
  subject = none;
  severity = severity;
  detail = opt_intent_name i;
}

-- what is reported of the intents that could not be collected
abbrev pub collection_findings : List Intent → Bool → List HealthFinding
collection_findings failed some_read =
    if not (is_nil failed) && not some_read
    then gap_finding "device_unreachable" unreachable none ∷ []
    else map (λ i. gap_finding "intent_collection_failed" warning (some i)) failed

unfoldable pub device_findings : Evidence → Device → List HealthFinding
unfolding rule_findings build_context
device_findings e device =
    rule_findings (build_context e device) all_rules
    ++ (collection_findings (intents_where is_failed_collection e)
          (any (λ i. is_read (reason_of e i)) by_name)
        ++ map (λ i. gap_finding "intent_unparsed" warning (some i))
            (intents_where is_failed_parse e))

-- `severity = _max_severity(severity, finding["severity"])`, and the counts
unfoldable pub tallied : List HealthFinding → Severity → Counts → Severity × Counts
unfolding max_severity
tallied [] severity counts = (severity, counts)
tallied (f ∷ fs) severity counts =
    tallied fs (max_severity severity f.severity) (count f.severity counts)

-- `a or b`
abbrev pub or_text : Option String → String → String
or_text none b = b
or_text (some a) b = if is_empty a then b else a

-- the entries that silences do not read stand beside the verdict; nothing is silenced yet
pub record DeviceVerdict : Type 0 where
  pub verdict : Verdict
  pub role : Role
  pub platform : String
  pub counts : Counts
  pub unevaluated : List Intent
  pub unsupported : List Intent

unfoldable pub evaluate_device : Evidence → Device → DeviceVerdict
unfolding device_findings tallied
evaluate_device e device =
    let findings = device_findings e device in
    let (severity, counts) = tallied findings okay no_counts in
    record {
      verdict = record { device = device.name; findings = findings; severity = severity };
      role = device.role;
      platform = or_text e.platform (or_text device.platform "cisco_xr");
      counts = counts;
      unevaluated = intents_where (λ r. is_failed_collection r || is_failed_parse r) e;
      unsupported = intents_where is_unsupported e;
    }

unfoldable pub evidence_for : List (String × Evidence) → String → Option Evidence
evidence_for [] name = none
evidence_for ((n, e) ∷ es) name =
    let rest = evidence_for es name in if str_eq n name then some e else rest

abbrev pub with_verdict : Option Evidence → Device → List DeviceVerdict → List DeviceVerdict
with_verdict none device rest = rest
with_verdict (some e) device rest = evaluate_device e device ∷ rest

-- `device_verdicts`, in inventory order; the names of an inventory are distinct
unfoldable pub device_verdicts : List (String × Evidence) → List Device → List DeviceVerdict
unfolding evidence_for
device_verdicts evidence [] = []
device_verdicts evidence (d ∷ ds) =
    with_verdict (evidence_for evidence d.name) d (device_verdicts evidence ds)

unfoldable pub fabric_severity : Severity → List DeviceVerdict → Severity
unfolding max_severity
fabric_severity s [] = s
fabric_severity s (v ∷ vs) = fabric_severity (max_severity s v.verdict.severity) vs

-- `by_severity`
unfoldable pub severities : List DeviceVerdict → BySeverity → BySeverity
severities [] b = b
severities (v ∷ vs) b = severities vs (bump v.verdict.severity b)

pub record FabricEvaluation : Type 0 where
  pub severity : Severity
  pub by_severity : BySeverity
  pub unevaluated_devices : List String
  pub devices : List DeviceVerdict

-- the devices with a gap_finding are kept in inventory order, which the source then sorts
unfoldable pub evaluate_fabric : List (String × Evidence) → List Device → FabricEvaluation
unfolding device_verdicts fabric_severity severities
evaluate_fabric evidence devices =
    let verdicts = device_verdicts evidence devices in
    record {
      severity = fabric_severity okay verdicts;
      by_severity = severities verdicts no_severities;
      unevaluated_devices =
          map (λ v. v.verdict.device) (keep (λ v. not (is_nil v.unevaluated)) verdicts);
      devices = verdicts;
    }
