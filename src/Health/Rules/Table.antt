-- ===== src/Health/Rules/Table.antt =====
-- checks.py: the health rules, one function for each.
use ai_ops.Prelude.{
  ℕ, String, Bool, true, false, not, ◌&&◌, ◌||◌, Option, none, some, List, [], ◌∷◌, opt_str_eq,
  length, keep, map, leb, ltb, ◌==◌, if◌then◌else◌,
}
use ai_ops.Health.{Severity, info, warning, critical}
use ai_ops.Checks.{is_nil}
use ai_ops.Health.Rules.{
  Role, Expected, Intent, IsisRecord, BgpRecord, InterfaceRecord, PolicyRecord, RuleContext, core,
  edge, route_reflector, isis_intent, bgp_intent, interfaces_intent, sr_intent,
}

-- what a rule returns: its intent, a severity of its own where it gives one, and the subject
pub record Fragment : Type 0 where
  pub intent : Option Intent
  pub severity : Option Severity
  pub subject : Option String

abbrev pub fragment : Intent → Option String → Fragment
fragment i subject = record { intent = some i; severity = none; subject = subject }

abbrev pub isis_isolated : RuleContext → List Fragment
isis_isolated ctx =
    if not ctx.isis_ok || not (is_nil ctx.isis_records) then [] else fragment isis_intent none ∷ []

abbrev pub adjacency_is_up : IsisRecord → Bool
adjacency_is_up r = opt_str_eq r.state (some "Up")

abbrev pub isis_adjacency_not_up : RuleContext → List Fragment
isis_adjacency_not_up ctx =
    if not ctx.isis_ok
    then []
    else map (λ r. fragment isis_intent r.system_id)
        (keep (λ r. not (adjacency_is_up r)) ctx.isis_records)

abbrev pub is_established : BgpRecord → Bool
is_established r = opt_str_eq r.session_state (some "Established")

abbrev pub bgp_session_down : RuleContext → List Fragment
bgp_session_down ctx =
    if not ctx.bgp_ok
    then []
    else map (λ r. fragment bgp_intent r.neighbor)
        (keep (λ r. not (is_established r)) ctx.bgp_records)

abbrev pub is_core : Role → Bool
is_core core = true
is_core _ = false

-- `ctx.bgp_meta.get("active", True) is False`
abbrev pub is_inactive : Option Bool → Bool
is_inactive none = false
is_inactive (some active) = not active

abbrev pub bgp_process_absent : RuleContext → List Fragment
bgp_process_absent ctx =
    if not ctx.bgp_ok || is_core ctx.device.role
    then []
    else if is_inactive ctx.bgp_active
    then fragment bgp_intent none ∷ []
    else []

abbrev pub is_zero : Option ℕ → Bool
is_zero none = false
is_zero (some n) = n == 0

abbrev pub bgp_no_prefixes : RuleContext → List Fragment
bgp_no_prefixes ctx =
    if not ctx.bgp_ok
    then []
    else map (λ r. fragment bgp_intent r.neighbor)
        (keep (λ r. is_zero r.prefixes_received) ctx.bgp_records)

abbrev pub is_line_down : InterfaceRecord → Bool
is_line_down r =
    opt_str_eq r.admin_state (some "up") && not (opt_str_eq r.line_protocol (some "up"))

abbrev pub interface_admin_up_line_down : RuleContext → List Fragment
interface_admin_up_line_down ctx =
    if not ctx.interfaces_ok
    then []
    else map (λ r. fragment interfaces_intent r.interface) (keep is_line_down ctx.interface_records)

abbrev pub is_operational : PolicyRecord → Bool
is_operational r = opt_str_eq r.operational_state (some "up")

abbrev pub sr_policy_down : RuleContext → List Fragment
sr_policy_down ctx =
    if not ctx.sr_ok
    then []
    else map (λ r. fragment sr_intent r.policy) (keep (λ r. not (is_operational r)) ctx.sr_records)

abbrev pub expected_isis : Option Expected → Option ℕ
expected_isis none = none
expected_isis (some x) = x.isis_adjacencies

abbrev pub expected_bgp : Option Expected → Option ℕ
expected_bgp none = none
expected_bgp (some x) = x.bgp_peers

-- the drift from a count that was recorded; a count above it is only `info`
abbrev pub isis_drift : Option ℕ → ℕ → List Fragment
isis_drift none actual = []
isis_drift (some expected) actual =
    if actual == expected
    then []
    else if ltb expected actual
    then record { intent = some isis_intent; severity = some info; subject = none } ∷ []
    else fragment isis_intent none ∷ []

abbrev pub isis_adjacency_count_drift : RuleContext → List Fragment
isis_adjacency_count_drift ctx =
    if not ctx.isis_ok
    then []
    else isis_drift (expected_isis ctx.device.expected) (length ctx.isis_records)

abbrev pub bgp_drift : Option ℕ → ℕ → List Fragment
bgp_drift none actual = []
bgp_drift (some expected) actual = if actual == expected then [] else fragment bgp_intent none ∷ []

abbrev pub bgp_peer_count_drift : RuleContext → List Fragment
bgp_peer_count_drift ctx =
    if not ctx.bgp_ok
    then []
    else bgp_drift (expected_bgp ctx.device.expected) (length ctx.bgp_records)

-- `ROLE_MIN_ISIS_ADJACENCIES`
abbrev pub role_min_isis_adjacencies : Role → ℕ
role_min_isis_adjacencies core = 2
role_min_isis_adjacencies edge = 2
role_min_isis_adjacencies route_reflector = 2

abbrev pub below_floor : Role → Option ℕ → List Fragment
below_floor role none = []
below_floor role (some actual) =
    if leb (role_min_isis_adjacencies role) actual
    then []
    else record { intent = none; severity = none; subject = none } ∷ []

abbrev pub suspicious_baseline : RuleContext → List Fragment
suspicious_baseline ctx = below_floor ctx.device.role (expected_isis ctx.device.expected)

-- `Rule`
pub record Rule : Type 0 where
  pub name : String
  pub severity : Severity
  pub fn : RuleContext → List Fragment

abbrev pub named_rule : String → Severity → (RuleContext → List Fragment) → Rule
named_rule name severity fn = record { name = name; severity = severity; fn = fn }

-- `ALL_RULES`
abbrev pub all_rules : List Rule
all_rules =
    named_rule "isis_isolated" critical isis_isolated
    ∷ named_rule "isis_adjacency_not_up" critical isis_adjacency_not_up
    ∷ named_rule "bgp_session_down" critical bgp_session_down
    ∷ named_rule "bgp_process_absent" warning bgp_process_absent
    ∷ named_rule "bgp_no_prefixes" info bgp_no_prefixes
    ∷ named_rule "interface_admin_up_line_down" warning interface_admin_up_line_down
    ∷ named_rule "sr_policy_down" warning sr_policy_down
    ∷ named_rule "isis_adjacency_count_drift" warning isis_adjacency_count_drift
    ∷ named_rule "bgp_peer_count_drift" warning bgp_peer_count_drift
    ∷ named_rule "suspicious_baseline" warning suspicious_baseline
    ∷ []
