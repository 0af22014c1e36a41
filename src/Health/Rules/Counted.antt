-- ===== src/Health/Rules/Counted.antt =====
-- checks.py: the counters of `by_severity` in the evaluation of the fabric.
use ai_ops.Prelude.{
  refl, ap, String, ℕ, ◌+◌, ◌≡◌, Bool, true, false, List, [], ◌∷◌, arith, count_if, if◌then◌else◌,
}
use ai_ops.Health.{Severity, okay, info, warning, unreachable, critical}
use ai_ops.Health.Fabric.{BySeverity, bump, no_severities}
use ai_ops.Health.Rules.{Evidence, Device}
use ai_ops.Health.Rules.Evaluate.{DeviceVerdict, severities, evaluate_fabric}

-- the counter with the name of a severity
abbrev pub counter : Severity → BySeverity → ℕ
counter critical b = b.critical_devices
counter unreachable b = b.unreachable_devices
counter warning b = b.warning_devices
counter info b = b.info_devices
counter okay b = b.okay_devices

abbrev same_severity : Severity → Severity → Bool
same_severity critical critical = true
same_severity unreachable unreachable = true
same_severity warning warning = true
same_severity info info = true
same_severity okay okay = true
same_severity _ _ = false

-- a verdict of the severity
abbrev pub is_of : Severity → DeviceVerdict → Bool
is_of s v = same_severity s v.verdict.severity

counter-no_severities : (s : Severity) → counter s no_severities ≡ 0
counter-no_severities s = ground arith

counter-bump :
    (s t : Severity) (b : BySeverity)
    → counter s (bump t b) ≡ counter s b + (if same_severity s t then 1 else 0)
counter-bump s t b = ground arith

counter-severities :
    (s : Severity) (vs : List DeviceVerdict) (b : BySeverity)
    → counter s (severities vs b) ≡ counter s b + count_if (is_of s) vs
unfolding severities
counter-severities s [] b = omega arith
counter-severities s (v ∷ vs) b =
    let rest = counter-severities s vs (bump v.verdict.severity b) in
    let here = counter-bump s v.verdict.severity b in ground arith

counters_of :
    (evidence : List (String × Evidence)) (devices : List Device)
    → (evaluate_fabric evidence devices).by_severity
      ≡ severities (evaluate_fabric evidence devices).devices no_severities
unfolding evaluate_fabric
counters_of evidence devices = refl

pub fabric_counter :
    (evidence : List (String × Evidence)) (devices : List Device) (s : Severity)
    → counter s (evaluate_fabric evidence devices).by_severity
      ≡ count_if (is_of s) (evaluate_fabric evidence devices).devices
fabric_counter evidence devices s =
    let vs = (evaluate_fabric evidence devices).devices in
    let told = ap (counter s) (counters_of evidence devices) in
    let each = counter-severities s vs no_severities in
    let start = counter-no_severities s in omega arith
