-- ===== src/Health/Rules/Sections.antt =====
-- What each health rule finds in the records of a device (checks.py).
use ai_ops.Prelude.{
  ℕ, ◌≡◌, refl, ap, ◌∙◌, Bool, true, not, ◌||◌, Option, none, some, List, [], ◌∷◌, map, all, length,
  arith, if◌then◌else◌,
}
use ai_ops.Health.{info, warning, critical}
use ai_ops.Health.Rules.{RuleContext, isis_intent, bgp_intent, interfaces_intent, sr_intent, Role}
use ai_ops.Health.Rules.Table.{
  Fragment, Rule, named_rule, isis_drift, bgp_drift, below_floor, adjacency_is_up, is_established,
  is_line_down, is_operational, expected_isis, expected_bgp, isis_isolated, isis_adjacency_not_up,
  bgp_session_down, bgp_process_absent, bgp_no_prefixes, interface_admin_up_line_down,
  sr_policy_down, isis_adjacency_count_drift, bgp_peer_count_drift, is_zero,
}
use ai_ops.Health.Rules.Evaluate.{finding_of}
use ai_ops.Health.Rules.Below.{below, is_below, all-about}
use ai_ops.Health.Rules.Conditions.{
  has_adjacency, adjacencies_up, sessions_established, has_process, lines_up, policies_up, reaches,
  equals, adjacencies_reach_baseline, peers_equal_baseline, floor_holds,
}

module _ (n : ℕ) where
  all-guarded :
      (ok : Bool) (r : Rule) (xs : List Fragment)
      → all (is_below n) (map (finding_of r) (if not ok then [] else xs))
        ≡ (not ok || all (is_below n) (map (finding_of r) xs))
  all-guarded ok r xs = ground arith

  guarded_cong : (ok a b : Bool) (k : Bool) → a ≡ (k || b) → (not ok || a) ≡ (k || (not ok || b))
  guarded_cong ok a b k h = ground arith

  all-not : {R : Type 0} (p : R → Bool) (xs : List R) → all (λ x. not (not (p x))) xs ≡ all p xs
  all-not p [] = refl
  all-not p (x ∷ xs) = ground (arith, all-not p xs)

  pub all-isis_isolated :
      (ctx : RuleContext)
      → all
          (is_below n)
          (map (finding_of (named_rule "isis_isolated" critical isis_isolated)) (isis_isolated ctx))
        ≡ (below n critical || has_adjacency ctx)
  all-isis_isolated ctx = ground arith

  pub all-isis_adjacency_not_up :
      (ctx : RuleContext)
      → all (is_below n) (
          map
            (finding_of (named_rule "isis_adjacency_not_up" critical isis_adjacency_not_up))
            (isis_adjacency_not_up ctx))
        ≡ (below n critical || adjacencies_up ctx)
  all-isis_adjacency_not_up ctx =
      let r = named_rule "isis_adjacency_not_up" critical isis_adjacency_not_up in
      all-guarded ctx.isis_ok r _
      ∙ guarded_cong ctx.isis_ok _ _ (below n critical) (
          all-about n isis_intent (λ x. x.system_id) r (λ x. not (adjacency_is_up x))
            ctx.isis_records
          ∙ ap (λ b. below n critical || b) (all-not adjacency_is_up ctx.isis_records))

  pub all-bgp_process_absent :
      (ctx : RuleContext)
      → all (is_below n) (
          map
            (finding_of (named_rule "bgp_process_absent" warning bgp_process_absent))
            (bgp_process_absent ctx))
        ≡ (below n warning || has_process ctx)
  all-bgp_process_absent ctx = ground arith

  all-isis_drift :
      (r : Rule) (e : Option ℕ) (actual : ℕ)
      → below n info ≡ true
      → all (is_below n) (map (finding_of r) (isis_drift e actual))
        ≡ (below n r.severity || reaches e actual)
  all-isis_drift r none actual h = ground arith
  all-isis_drift r (some e) actual h = ground arith

  all-bgp_drift :
      (r : Rule) (e : Option ℕ) (actual : ℕ)
      → all (is_below n) (map (finding_of r) (bgp_drift e actual))
        ≡ (below n r.severity || equals e actual)
  all-bgp_drift r none actual = ground arith
  all-bgp_drift r (some e) actual = ground arith

  pub all-below_floor :
      (r : Rule) (role : Role) (e : Option ℕ)
      → all (is_below n) (map (finding_of r) (below_floor role e))
        ≡ (below n r.severity || floor_holds role e)
  all-below_floor r role none = ground arith
  all-below_floor r role (some e) = ground arith

  pub all-bgp_session_down :
      (ctx : RuleContext)
      → all (is_below n) (
          map
            (finding_of (named_rule "bgp_session_down" critical bgp_session_down))
            (bgp_session_down ctx))
        ≡ (below n critical || sessions_established ctx)
  all-bgp_session_down ctx =
      let r = named_rule "bgp_session_down" critical bgp_session_down in
      all-guarded ctx.bgp_ok r _
      ∙ guarded_cong ctx.bgp_ok _ _ (below n critical) (
          all-about n bgp_intent (λ x. x.neighbor) r (λ x. not (is_established x)) ctx.bgp_records
          ∙ ap (λ b. below n critical || b) (all-not is_established ctx.bgp_records))

  pub all-interface_admin_up_line_down :
      (ctx : RuleContext)
      → all (is_below n) (
          map
            (finding_of
              (named_rule "interface_admin_up_line_down" warning interface_admin_up_line_down))
            (interface_admin_up_line_down ctx))
        ≡ (below n warning || lines_up ctx)
  all-interface_admin_up_line_down ctx =
      let r = named_rule "interface_admin_up_line_down" warning interface_admin_up_line_down in
      all-guarded ctx.interfaces_ok r _
      ∙ guarded_cong ctx.interfaces_ok _ _ (below n warning)
          (all-about n interfaces_intent (λ x. x.interface) r is_line_down ctx.interface_records)

  pub all-sr_policy_down :
      (ctx : RuleContext)
      → all (is_below n) (
          map
            (finding_of (named_rule "sr_policy_down" warning sr_policy_down))
            (sr_policy_down ctx))
        ≡ (below n warning || policies_up ctx)
  all-sr_policy_down ctx =
      let r = named_rule "sr_policy_down" warning sr_policy_down in
      all-guarded ctx.sr_ok r _
      ∙ guarded_cong ctx.sr_ok _ _ (below n warning) (
          all-about n sr_intent (λ x. x.policy) r (λ x. not (is_operational x)) ctx.sr_records
          ∙ ap (λ b. below n warning || b) (all-not is_operational ctx.sr_records))

  or_true : (a b : Bool) → a ≡ true → (a || b) ≡ true
  or_true a b h = ground arith

  guarded_true : (ok a : Bool) → a ≡ true → (not ok || a) ≡ true
  guarded_true ok a h = ground arith

  pub all-bgp_no_prefixes :
      (ctx : RuleContext)
      → below n info ≡ true
      → all (is_below n) (
          map
            (finding_of (named_rule "bgp_no_prefixes" info bgp_no_prefixes))
            (bgp_no_prefixes ctx))
        ≡ true
  all-bgp_no_prefixes ctx h =
      let r = named_rule "bgp_no_prefixes" info bgp_no_prefixes in
      all-guarded ctx.bgp_ok r _
      ∙ guarded_true ctx.bgp_ok _ (
          all-about n bgp_intent (λ x. x.neighbor) r (λ x. is_zero x.prefixes_received)
            ctx.bgp_records
          ∙ or_true (below n info) _ h)

  pub all-isis_adjacency_count_drift :
      (ctx : RuleContext)
      → below n info ≡ true
      → all (is_below n) (
          map
            (finding_of
              (named_rule "isis_adjacency_count_drift" warning isis_adjacency_count_drift))
            (isis_adjacency_count_drift ctx))
        ≡ (below n warning || adjacencies_reach_baseline ctx)
  all-isis_adjacency_count_drift ctx h =
      let r = named_rule "isis_adjacency_count_drift" warning isis_adjacency_count_drift in
      all-guarded ctx.isis_ok r _
      ∙ guarded_cong ctx.isis_ok _ _ (below n warning)
          (all-isis_drift r (expected_isis ctx.device.expected) (length ctx.isis_records) h)

  pub all-bgp_peer_count_drift :
      (ctx : RuleContext)
      → all (is_below n) (
          map
            (finding_of (named_rule "bgp_peer_count_drift" warning bgp_peer_count_drift))
            (bgp_peer_count_drift ctx))
        ≡ (below n warning || peers_equal_baseline ctx)
  all-bgp_peer_count_drift ctx =
      let r = named_rule "bgp_peer_count_drift" warning bgp_peer_count_drift in
      all-guarded ctx.bgp_ok r _
      ∙ guarded_cong ctx.bgp_ok _ _ (below n warning)
          (all-bgp_drift r (expected_bgp ctx.device.expected) (length ctx.bgp_records))
