-- ===== src/Health/Rules/Each.antt =====
-- Each health rule finds something exactly where its condition does not hold.
use ai_ops.Prelude.{All, ℕ, ◌≡◌, refl, ◌∙◌, Bool, true, ◌||◌, List, [], ◌∷◌, map, all}
use ai_ops.Health.{info, warning, critical}
use ai_ops.Health.Rules.{RuleContext}
use ai_ops.Health.Rules.Table.{
  Rule, named_rule, all_rules, expected_isis, isis_isolated, isis_adjacency_not_up,
  bgp_session_down, bgp_process_absent, bgp_no_prefixes, interface_admin_up_line_down,
  sr_policy_down, isis_adjacency_count_drift, bgp_peer_count_drift, suspicious_baseline,
}
use ai_ops.Health.Rules.Evaluate.{finding_of, rule_findings}
use ai_ops.Health.Rules.Below.{and_cong, below, is_below, all-rule_findings}
use ai_ops.Health.Rules.Conditions.{
  has_adjacency, adjacencies_up, sessions_established, has_process, lines_up, policies_up,
  adjacencies_reach_baseline, peers_equal_baseline, floor_holds,
}
use ai_ops.Health.Rules.Sections.{
  all-isis_isolated, all-isis_adjacency_not_up, all-bgp_process_absent, all-below_floor,
  all-bgp_session_down, all-interface_admin_up_line_down, all-sr_policy_down, all-bgp_no_prefixes,
  all-isis_adjacency_count_drift, all-bgp_peer_count_drift,
}

module _ (n : ℕ) where
  -- rules with what each of them finds fine
  all-graded :
      (ctx : RuleContext) (gs : List (Rule × Bool))
      → All (λ (g : Rule × Bool). all (is_below n) (map (finding_of g.0) (g.0.fn ctx)) ≡ g.1) gs
      → all (is_below n) (rule_findings ctx (map (λ (g : Rule × Bool). g.0) gs))
        ≡ all (λ (g : Rule × Bool). g.1) gs
  unfolding rule_findings
  all-graded ctx [] h = refl
  all-graded ctx ((r, b) ∷ gs) h =
      all-rule_findings n ctx r (map (λ (g : Rule × Bool). g.0) gs)
      ∙ and_cong (all (is_below n) (map (finding_of r) (r.fn ctx)))
          (all (is_below n) (rule_findings ctx (map (λ (g : Rule × Bool). g.0) gs))) b
          (all (λ (g : Rule × Bool). g.1) gs) h.0 (all-graded ctx gs h.1)

  abbrev pub graded : RuleContext → List (Rule × Bool)
  graded ctx =
      (named_rule "isis_isolated" critical isis_isolated, below n critical || has_adjacency ctx)
      ∷ (
        named_rule "isis_adjacency_not_up" critical isis_adjacency_not_up,
        below n critical || adjacencies_up ctx,
      )
      ∷ (
        named_rule "bgp_session_down" critical bgp_session_down,
        below n critical || sessions_established ctx,
      )
      ∷ (
        named_rule "bgp_process_absent" warning bgp_process_absent,
        below n warning || has_process ctx,
      )
      ∷ (named_rule "bgp_no_prefixes" info bgp_no_prefixes, true)
      ∷ (
        named_rule "interface_admin_up_line_down" warning interface_admin_up_line_down,
        below n warning || lines_up ctx,
      )
      ∷ (named_rule "sr_policy_down" warning sr_policy_down, below n warning || policies_up ctx)
      ∷ (
        named_rule "isis_adjacency_count_drift" warning isis_adjacency_count_drift,
        below n warning || adjacencies_reach_baseline ctx,
      )
      ∷ (
        named_rule "bgp_peer_count_drift" warning bgp_peer_count_drift,
        below n warning || peers_equal_baseline ctx,
      )
      ∷ (
        named_rule "suspicious_baseline" warning suspicious_baseline,
        below n warning || floor_holds ctx.device.role (expected_isis ctx.device.expected),
      )
      ∷ []

  -- the findings of all the rules are below the bound where each severity is or its rule is content
  pub all-all_rules :
      (ctx : RuleContext)
      → below n info ≡ true
      → all (is_below n) (rule_findings ctx all_rules) ≡ all (λ (g : Rule × Bool). g.1) (graded ctx)
  all-all_rules ctx h = all-graded ctx (graded ctx) (
    all-isis_isolated n ctx,
    (
      all-isis_adjacency_not_up n ctx,
      (
        all-bgp_session_down n ctx,
        (
          all-bgp_process_absent n ctx,
          (
            all-bgp_no_prefixes n ctx h,
            (
              all-interface_admin_up_line_down n ctx,
              (
                all-sr_policy_down n ctx,
                (
                  all-isis_adjacency_count_drift n ctx h,
                  (
                    all-bgp_peer_count_drift n ctx,
                    (
                      all-below_floor n
                          (named_rule "suspicious_baseline" warning suspicious_baseline)
                          ctx.device.role (expected_isis ctx.device.expected),
                      tt,
                    ),
                  ),
                ),
              ),
            ),
          ),
        ),
      ),
    ),
  )
