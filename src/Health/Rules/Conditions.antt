-- ===== src/Health/Rules/Conditions.antt =====
-- What each health rule finds fine in a device's evidence.
use ai_ops.Prelude.{ℕ, Bool, true, not, ◌||◌, Option, none, some, all, leb, ◌==◌, length}
use ai_ops.Checks.{is_nil}
use ai_ops.Health.Rules.{RuleContext, Role}
use ai_ops.Health.Rules.Table.{
  role_min_isis_adjacencies, adjacency_is_up, is_established, is_core, is_inactive, is_line_down,
  is_operational, expected_isis, expected_bgp,
}

-- the IS-IS part: where it parsed, there are adjacencies and all are up
abbrev pub has_adjacency : RuleContext → Bool
has_adjacency ctx = not ctx.isis_ok || not (is_nil ctx.isis_records)

abbrev pub adjacencies_up : RuleContext → Bool
adjacencies_up ctx = not ctx.isis_ok || all adjacency_is_up ctx.isis_records

abbrev pub sessions_established : RuleContext → Bool
sessions_established ctx = not ctx.bgp_ok || all is_established ctx.bgp_records

abbrev pub has_process : RuleContext → Bool
has_process ctx = not ctx.bgp_ok || is_core ctx.device.role || not (is_inactive ctx.bgp_active)

abbrev pub lines_up : RuleContext → Bool
lines_up ctx = not ctx.interfaces_ok || all (λ r. not (is_line_down r)) ctx.interface_records

abbrev pub policies_up : RuleContext → Bool
policies_up ctx = not ctx.sr_ok || all is_operational ctx.sr_records

abbrev pub reaches : Option ℕ → ℕ → Bool
reaches none actual = true
reaches (some expected) actual = leb expected actual

abbrev pub equals : Option ℕ → ℕ → Bool
equals none actual = true
equals (some expected) actual = actual == expected

abbrev pub adjacencies_reach_baseline : RuleContext → Bool
adjacencies_reach_baseline ctx =
    not ctx.isis_ok || reaches (expected_isis ctx.device.expected) (length ctx.isis_records)

abbrev pub peers_equal_baseline : RuleContext → Bool
peers_equal_baseline ctx =
    not ctx.bgp_ok || equals (expected_bgp ctx.device.expected) (length ctx.bgp_records)

abbrev pub floor_holds : Role → Option ℕ → Bool
floor_holds role none = true
floor_holds role (some n) = leb (role_min_isis_adjacencies role) n
