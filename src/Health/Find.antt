-- ===== src/Health/Find.antt =====
-- health.py: which silence covers a finding.
use ai_ops.Prelude.{
  ℕ, ◌≤◌, ◌<◌, ◌≡◌, ◌⊎◌, refl, sym, ap, ◌∙◌, Bool, true, false, Option, none, some, List, [], ◌∷◌,
  String, All, any, keep, arith, ltb, if◌then◌else◌, Bool-cases, inl, inr, subst,
}
use ai_ops.Health.{
  Silence, matches, find_silence, most_specific, specificity, best_of, not_started, wider,
}

abbrev pub IsIn : Silence → List Silence → Type 0
IsIn s [] = ⊥
IsIn s (x ∷ xs) = (s ≡ x) ⊎ IsIn s xs

wider-cases : (b s : Silence) → (wider b s ≡ b) ⊎ (wider b s ≡ s)
unfolding wider
wider-cases b s = elim (Bool-cases (ltb (specificity b) (specificity s))) [
  | inl more ↦ inr (ap (λ t. if t then s else b) more)
  | inr kept ↦ inl (ap (λ t. if t then s else b) kept)
]

wider-le :
    (b s : Silence)
    → (specificity b ≤ specificity (wider b s)) × (specificity s ≤ specificity (wider b s))
wider-le b s = elim (Bool-cases (ltb (specificity b) (specificity s))) [
  | inl more ↦
      let e : wider b s ≡ s = unfold wider in ap (λ t. if t then s else b) more in
      subst (λ (x : Silence). (specificity b ≤ specificity x) × (specificity s ≤ specificity x))
        (sym e) (ground arith, omega arith)
  | inr kept ↦
      let e : wider b s ≡ b = unfold wider in ap (λ t. if t then s else b) kept in
      subst (λ (x : Silence). (specificity b ≤ specificity x) × (specificity s ≤ specificity x))
        (sym e) (omega arith, ground arith)
]

most_specific-IsIn : (b : Silence) (ss : List Silence) → IsIn (most_specific b ss) (b ∷ ss)
unfolding most_specific
most_specific-IsIn b [] = inl refl
most_specific-IsIn b (s ∷ ss) = elim (most_specific-IsIn (wider b s) ss) [
  | inr later ↦ inr (inr later)
  | inl this ↦ elim (wider-cases b s) [
    | inl kept ↦ inl (this ∙ kept)
    | inr more ↦ inr (inl (this ∙ more))
  ]
]

-- none of the list pins more than `n` of device, rule and subject
abbrev pub AtMost : ℕ → List Silence → Type 0
AtMost n = All (λ s. specificity s ≤ n)

most_specific-AtMost :
    (b : Silence) (ss : List Silence) → AtMost (specificity (most_specific b ss)) (b ∷ ss)
unfolding most_specific
most_specific-AtMost b [] = (omega arith, tt)
most_specific-AtMost b (s ∷ ss) =
    let rest = most_specific-AtMost (wider b s) ss in
    let (here, next) = wider-le b s in (omega arith, (omega arith, rest.1))

module _ (p : Silence → Bool) where
  keep-IsIn : (ss : List Silence) {m : Silence} → IsIn m (keep p ss) → IsIn m ss × (p m ≡ true)
  keep-IsIn [] i = elim i [ ]
  keep-IsIn (s ∷ ss) {m} i = elim (Bool-cases (p s)) [
    | inr dropped ↦
        let kept : IsIn m (keep p ss) =
          subst (λ b. IsIn m (if b then s ∷ keep p ss else keep p ss)) dropped i in
        let (there, holds) = keep-IsIn ss kept in (inr there, holds)
    | inl taken ↦ elim (subst (λ b. IsIn m (if b then s ∷ keep p ss else keep p ss)) taken i) [
      | inl this ↦ (inl this, ap p this ∙ taken)
      | inr later ↦ let (there, holds) = keep-IsIn ss later in (inr there, holds)
    ]
  ]

  keep-All :
      (Q : Silence → Type 0) (ss : List Silence)
      → All Q (keep p ss)
      → All (λ s. (p s ≡ false) ⊎ Q s) ss
  keep-All Q [] h = tt
  keep-All Q (s ∷ ss) h = elim (Bool-cases (p s)) [
    | inr dropped ↦ (
      inl dropped,
      keep-All Q ss (subst (λ b. All Q (if b then s ∷ keep p ss else keep p ss)) dropped h),
    )
    | inl taken ↦
        let both = subst (λ b. All Q (if b then s ∷ keep p ss else keep p ss)) taken h in
        (inr both.0, keep-All Q ss both.1)
  ]

  keep-none : (ss : List Silence) → keep p ss ≡ [] → any p ss ≡ false
  keep-none [] h = refl
  keep-none (s ∷ ss) h = ground (arith, keep-none ss)

-- the silence window: it has begun and is not over
unfoldable pub IsOpen : Silence → ℕ → Type 0
IsOpen s now = (now < s.expires_at) × (not_started s.starts_at now ≡ false)

matches-IsOpen :
    (s : Silence) (device : String) (rule subject : Option String) (now : ℕ)
    → matches s device rule subject now ≡ true
    → IsOpen s now
unfolding matches IsOpen
matches-IsOpen s device rule subject now h = (ground arith, ground arith)

-- what the answer of `find_silence` should be
unfoldable pub Answers :
    Option Silence → List Silence → String → Option String → Option String → ℕ → Type 0
unfolding matches specificity IsOpen
Answers none ss device rule subject now = any (λ s. matches s device rule subject now) ss ≡ false
Answers (some m) ss device rule subject now =
    IsIn m ss
    × (matches m device rule subject now ≡ true)
    × IsOpen m now
    × All (λ s. (matches s device rule subject now ≡ false) ⊎ (specificity s ≤ specificity m)) ss

-- No silence is found only where none covers the finding; the one that is found stands in the
-- table, covers the finding, has begun and has not expired, and pins at least as many of device,
-- rule and subject as any other that covers it.
pub find_silence-Answers :
    (ss : List Silence) (device : String) (rule subject : Option String) (now : ℕ)
    → Answers (find_silence ss device rule subject now) ss device rule subject now
unfolding find_silence Answers
find_silence-Answers ss device rule subject now = answer (keep covers ss) refl
  where
    covers : Silence → Bool
    covers s = matches s device rule subject now

    answer :
        (ks : List Silence) → keep covers ss ≡ ks → Answers (best_of ks) ss device rule subject now
    answer [] e = keep-none covers ss e
    answer (k ∷ ks) e =
        let m = most_specific k ks in
        let (there, holds) =
          keep-IsIn covers ss (subst (IsIn m) (sym e) (most_specific-IsIn k ks)) in
        (
          there,
          holds,
          matches-IsOpen m device rule subject now holds,
          keep-All covers (λ s. specificity s ≤ specificity m) ss
              (subst (AtMost (specificity m)) (sym e) (most_specific-AtMost k ks)),
        )
