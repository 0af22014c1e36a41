-- ===== src/Health/Rules/Graded.antt =====
-- The severity of a device's verdict, and of the fabric's, by what the evidence shows.
use ai_ops.Prelude.{
  count_if, Option-cases, inl, inr, ℕ, ◌≡◌, refl, ap, ◌∙◌, String, Bool, true, false, ◌&&◌, ◌||◌,
  Option, none, some, List, [], ◌∷◌, ◌++◌, map, all, any, leb, arith, all-append, if◌then◌else◌,
}
use ai_ops.Checks.{is_nil}
use ai_ops.Health.{
  Severity, okay, info, warning, unreachable, severity_rank, max_severity, no_counts,
}
use ai_ops.Health.Rules.{Evidence, Device, RuleContext, build_context, Intent}
use ai_ops.Health.Rules.Table.{Rule, all_rules, expected_isis}
use ai_ops.Health.Rules.Evaluate.{
  gap_finding, evaluate_device, device_findings, collection_findings, intents_where,
  is_failed_collection, is_failed_parse, is_read, reason_of, by_name, rule_findings, DeviceVerdict,
  evidence_for, with_verdict, device_verdicts, fabric_severity, evaluate_fabric,
}
use ai_ops.Health.Rules.Below.{
  and_cong, below-max_severity, and_assoc, below, is_below, below-tallied,
}
use ai_ops.Health.Rules.Conditions.{
  has_adjacency, adjacencies_up, sessions_established, has_process, lines_up, policies_up,
  adjacencies_reach_baseline, peers_equal_baseline, floor_holds,
}
use ai_ops.Health.Rules.Counted.{counter, is_of, fabric_counter}
use ai_ops.Health.Rules.Each.{graded, all-all_rules}

abbrev pub holds : Bool → Bool
holds b = b

-- no confirmed fault: IS-IS, where it parsed, has adjacencies, and all are up; all BGP sessions are
-- established, where BGP parsed
abbrev pub faultless : RuleContext → List Bool
faultless ctx = has_adjacency ctx ∷ adjacencies_up ctx ∷ sessions_established ctx ∷ []

-- and nothing else to report but what is only of interest
abbrev pub quiet : RuleContext → List Bool
quiet ctx =
    has_process ctx
    ∷ lines_up ctx
    ∷ policies_up ctx
    ∷ adjacencies_reach_baseline ctx
    ∷ peers_equal_baseline ctx
    ∷ floor_holds ctx.device.role (expected_isis ctx.device.expected)
    ∷ []

-- every intent was read, or is not supported by the platform
abbrev pub is_assessed : Evidence → Bool
is_assessed e =
    is_nil (intents_where is_failed_collection e) && is_nil (intents_where is_failed_parse e)

-- some intent was read, or none failed to be collected
abbrev pub is_reachable : Evidence → Bool
is_reachable e =
    is_nil (intents_where is_failed_collection e) || any (λ i. is_read (reason_of e i)) by_name

-- the findings of a device, up to a severity
below-evaluate_device :
    (n : ℕ) (e : Evidence) (device : Device)
    → below n info ≡ true
    → below n okay ≡ true
    → below n (evaluate_device e device).verdict.severity ≡ (
        all (λ (g : Rule × Bool). g.1) (graded n (build_context e device))
        && (all (is_below n) (
              collection_findings
                (intents_where is_failed_collection e)
                (any (λ i. is_read (reason_of e i)) by_name))
            && all (is_below n) (
                map
                  (λ i. gap_finding "intent_unparsed" warning (some i))
                  (intents_where is_failed_parse e))))
unfolding evaluate_device device_findings
below-evaluate_device n e device i o =
    let ctx = build_context e device in
    let failed =
      collection_findings (intents_where is_failed_collection e)
        (any (λ x. is_read (reason_of e x)) by_name) in
    let garbled =
      map (λ x. gap_finding "intent_unparsed" warning (some x)) (intents_where is_failed_parse e) in
    below-tallied n (rule_findings ctx all_rules ++ (failed ++ garbled)) okay no_counts
    ∙ ap (λ b. b && all (is_below n) (rule_findings ctx all_rules ++ (failed ++ garbled))) o
    ∙ all-append (is_below n) (rule_findings ctx all_rules) (failed ++ garbled)
    ∙ and_cong (all (is_below n) (rule_findings ctx all_rules))
        (all (is_below n) (failed ++ garbled)) (all (λ (g : Rule × Bool). g.1) (graded n ctx))
        (all (is_below n) failed && all (is_below n) garbled) (all-all_rules n ctx i)
        (all-append (is_below n) failed garbled)

all-gaps :
    (n : ℕ) (name : String) (is : List Intent)
    → all (is_below n) (map (λ i. gap_finding name warning (some i)) is)
      ≡ (is_nil is || below n warning)
all-gaps n name [] = refl
all-gaps n name (i ∷ is) = ground (arith, all-gaps n name is)

all-collection_findings :
    (n : ℕ) (is : List Intent) (read : Bool)
    → all (is_below n) (collection_findings is read)
      ≡ (is_nil is || (if read then below n warning else below n unreachable))
all-collection_findings n [] read = refl
all-collection_findings n (i ∷ is) false = ground arith
all-collection_findings n (i ∷ is) true = all-gaps n "intent_collection_failed" (i ∷ is)

and_right : (x a b : Bool) → a ≡ b → (x && a) ≡ (x && b)
and_right x a b h = ap (λ c. x && c) h

-- the two tests of the gaps together, up to each severity
gaps_graded :
    (c p f g read u w : Bool)
    → c ≡ (f || (if read then w else u))
    → p ≡ (g || w)
    → (c && p) ≡ ((f || (if read then w else u)) && (g || w))
gaps_graded c p f g read u w h k = ground arith

at_info : (f g read : Bool) → ((f || (if read then false else false)) && (g || false)) ≡ (f && g)
at_info f g read = ground arith

at_warning :
    (f g read : Bool) → ((f || (if read then true else false)) && (g || true)) ≡ (f || read)
at_warning f g read = ground arith

at_unreachable :
    (x f g read : Bool) → (x && ((f || (if read then true else true)) && (g || true))) ≡ x
at_unreachable x f g read = ground arith

pub evaluate_device-severity :
    (e : Evidence) (device : Device)
    → (leb (severity_rank (evaluate_device e device).verdict.severity) 1 ≡ (
        all holds (faultless (build_context e device) ++ quiet (build_context e device))
        && is_assessed e))
      × (leb (severity_rank (evaluate_device e device).verdict.severity) 2
          ≡ (all holds (faultless (build_context e device)) && is_reachable e))
      × (leb (severity_rank (evaluate_device e device).verdict.severity) 3
          ≡ all holds (faultless (build_context e device)))
unfolding below severity_rank
evaluate_device-severity e device =
    let failed = intents_where is_failed_collection e in
    let garbled = intents_where is_failed_parse e in
    let read = any (λ x. is_read (reason_of e x)) by_name in
    (
      below-evaluate_device 1 e device refl refl
          ∙ and_right _ _ _ (
              gaps_graded _ _ (is_nil failed) (is_nil garbled) read false false
                (all-collection_findings 1 failed read) (all-gaps 1 "intent_unparsed" garbled)
              ∙ at_info (is_nil failed) (is_nil garbled) read),
      below-evaluate_device 2 e device refl refl
          ∙ and_right _ _ _ (
              gaps_graded _ _ (is_nil failed) (is_nil garbled) read false true
                (all-collection_findings 2 failed read) (all-gaps 2 "intent_unparsed" garbled)
              ∙ at_warning (is_nil failed) (is_nil garbled) read),
      below-evaluate_device 3 e device refl refl
          ∙ and_right _ _ _ (
              gaps_graded _ _ (is_nil failed) (is_nil garbled) read true true
                (all-collection_findings 3 failed read) (all-gaps 3 "intent_unparsed" garbled))
          ∙ at_unreachable _ (is_nil failed) (is_nil garbled) read,
    )

-- every condition holds of the device that there is evidence of
abbrev pub is_fine : Evidence → Device → Bool
is_fine e device =
    all holds (faultless (build_context e device) ++ quiet (build_context e device))
    && is_assessed e

abbrev pub is_fine_if_known : Option Evidence → Device → Bool
is_fine_if_known none device = true
is_fine_if_known (some e) device = is_fine e device

below-fabric_severity :
    (n : ℕ) (s : Severity) (vs : List DeviceVerdict)
    → below n (fabric_severity s vs) ≡ (below n s && all (λ v. below n v.verdict.severity) vs)
unfolding fabric_severity
below-fabric_severity n s [] = ground arith
below-fabric_severity n s (v ∷ vs) =
    below-fabric_severity n (max_severity s v.verdict.severity) vs
    ∙ ap (λ b. b && all (λ v. below n v.verdict.severity) vs)
        (below-max_severity n s v.verdict.severity)
    ∙ and_assoc (below n s) (below n v.verdict.severity) (all (λ v. below n v.verdict.severity) vs)

device_is_fine :
    (e : Evidence) (device : Device)
    → below 1 (evaluate_device e device).verdict.severity ≡ is_fine e device
unfolding below
device_is_fine e device = (evaluate_device-severity e device).0

all-device_verdicts :
    (evidence : List (String × Evidence)) (devices : List Device)
    → all (λ v. below 1 v.verdict.severity) (device_verdicts evidence devices)
      ≡ all (λ d. is_fine_if_known (evidence_for evidence d.name) d) devices
unfolding device_verdicts
all-device_verdicts evidence [] = refl
all-device_verdicts evidence (d ∷ ds) = elim (Option-cases (evidence_for evidence d.name)) [
  | inl e ↦ rw (e, with_verdict, is_fine_if_known) (all-device_verdicts evidence ds)
  | inr (x, e) ↦
      rw (e, with_verdict, is_fine_if_known)
        (and_cong _ _ _ _ (device_is_fine x d) (all-device_verdicts evidence ds))
]

-- The fabric is at most `info` if and only if every device of the inventory that there is evidence of is
-- fine, as its own verdict has it; and each counter of `by_severity` is the number of the verdicts of
-- its own severity.
pub evaluate_fabric-severity :
    (evidence : List (String × Evidence)) (devices : List Device)
    → (leb (severity_rank (evaluate_fabric evidence devices).severity) 1
        ≡ all (λ d. is_fine_if_known (evidence_for evidence d.name) d) devices)
      × ((s : Severity)
          → counter s (evaluate_fabric evidence devices).by_severity
            ≡ count_if (is_of s) (evaluate_fabric evidence devices).devices)
unfolding evaluate_fabric below
evaluate_fabric-severity evidence devices = (
  below-fabric_severity 1 okay (device_verdicts evidence devices)
      ∙ all-device_verdicts evidence devices,
  fabric_counter evidence devices,
)
