-- ===== src/Health/Rules/Below.antt =====
-- The findings of each health rule, up to a severity.
use ai_ops.Prelude.{
  ℕ, ◌≡◌, ap, ◌∙◌, String, Bool, not, ◌&&◌, ◌||◌, Option, List, [], ◌∷◌, map, keep, all, leb, arith,
  all-append, Bool-cases, inl, inr,
}
use ai_ops.Health.{Severity, severity_rank, max_severity, HealthFinding, Counts, count}
use ai_ops.Health.Rules.{RuleContext, Intent}
use ai_ops.Health.Rules.Table.{fragment, Rule}
use ai_ops.Health.Rules.Evaluate.{finding_of, tallied, rule_findings}

pub and_assoc : (a b c : Bool) → ((a && b) && c) ≡ (a && (b && c))
and_assoc a b c = ground arith

pub and_cong : (a b c d : Bool) → a ≡ c → b ≡ d → (a && b) ≡ (c && d)
and_cong a b c d h k = ground arith

module _ (n : ℕ) where
  -- a severity that is at most the bound, by its rank
  unfoldable pub below : Severity → Bool
  below s = leb (severity_rank s) n

  abbrev pub is_below : HealthFinding → Bool
  is_below f = below f.severity

  pub below-max_severity : (a b : Severity) → below (max_severity a b) ≡ (below a && below b)
  unfolding below max_severity
  below-max_severity a b = ground arith

  pub below-tallied :
      (fs : List HealthFinding) (s : Severity) (c : Counts)
      → below (tallied fs s c).0 ≡ (below s && all is_below fs)
  unfolding tallied
  below-tallied [] s c = ground arith
  below-tallied (f ∷ fs) s c =
      below-tallied fs (max_severity s f.severity) (count f.severity c)
      ∙ ap (λ b. b && all is_below fs) (below-max_severity s f.severity)
      ∙ and_assoc (below s) (below f.severity) (all is_below fs)

  -- a rule that reports each record that is not fine
  pub all-about :
      {R : Type 0} (i : Intent) (subject : R → Option String) (r : Rule) (p : R → Bool)
      (xs : List R)
      → all is_below (map (finding_of r) (map (λ x. fragment i (subject x)) (keep p xs)))
        ≡ (below r.severity || all (λ x. not (p x)) xs)
  all-about i subject r p [] = ground arith
  all-about i subject r p (x ∷ xs) = elim (Bool-cases (p x)) [
    | inl found ↦ rw found (ground (arith, all-about i subject r p xs))
    | inr missed ↦ rw missed (all-about i subject r p xs)
  ]

  pub all-rule_findings :
      (ctx : RuleContext) (r : Rule) (rs : List Rule)
      → all is_below (rule_findings ctx (r ∷ rs))
        ≡ (all is_below (map (finding_of r) (r.fn ctx)) && all is_below (rule_findings ctx rs))
  unfolding rule_findings
  all-rule_findings ctx r rs =
      all-append is_below (map (finding_of r) (r.fn ctx)) (rule_findings ctx rs)
