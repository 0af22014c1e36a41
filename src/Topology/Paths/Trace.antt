-- ===== src/Topology/Paths/Trace.antt =====
-- The way back from a device that the search noted: it ends, at the source, over adjacencies.
use ai_ops.Prelude.{
  ℕ, zero, suc, ◌≤◌, ◌≡◌, ◌⊎◌, inl, inr, refl, sym, ap, ◌∙◌, subst, String, Bool, true, false,
  Option, none, some, List, [], ◌∷◌, ◌++◌, any, length, str_eq, eq_iff, arith, Bool-cases,
}
use mathlib.Core.List.{reverse, reverse-cons}
use ai_ops.Topology.{GraphEdge, AreJoined}
use ai_ops.Topology.Paths.{Predecessor, met_at, trace, onward}

-- a path, as the list of its devices, from its first to its last
pub data Walk (edges : List GraphEdge) (start : String) : String → List String → Type 0 where
  stand : Walk edges start start (start ∷ [])
  extend :
      {a b : String} {walked : List String}
      → Walk edges start a walked
      → AreJoined edges a b
      → Walk edges start b (walked ++ b ∷ [])

abbrev pub is_met : List Predecessor → String → Bool
is_met es n = any (λ (e : Predecessor). str_eq n e.0) es

-- the notes of a search from a source: each device once, and met from one that was noted before
pub data IsTrail (edges : List GraphEdge) (source : String) : List Predecessor → Type 0 where
  first : IsTrail edges source ((source, none) ∷ [])
  later :
      {es : List Predecessor} (n p : String)
      → IsTrail edges source es
      → is_met es p ≡ true
      → AreJoined edges p n
      → is_met es n ≡ false
      → IsTrail edges source ((n, some p) ∷ es)

pub met_at-head :
    (n : String) (p : Option String) (es : List Predecessor) (k : String)
    → str_eq k n ≡ true
    → met_at ((n, p) ∷ es) k ≡ some p
unfolding met_at
met_at-head n p es k e = rw e refl

pub met_at-tail :
    (n : String) (p : Option String) (es : List Predecessor) (k : String)
    → str_eq k n ≡ false
    → met_at ((n, p) ∷ es) k ≡ met_at es k
unfolding met_at
met_at-tail n p es k e = rw e refl

module _ (edges : List GraphEdge) (source : String) where
  -- a device that was noted is another one than a device that was not
  differs :
      (es : List Predecessor) (k n : String)
      → is_met es k ≡ true
      → is_met es n ≡ false
      → str_eq k n ≡ false
  differs es k n yes_k no_n = elim (Bool-cases (str_eq k n)) [
    | inl e ↦ absurd (ground (arith, sym (ap (is_met es) ((eq_iff k n).0 e)) ∙ yes_k))
    | inr e ↦ e
  ]

  -- what a noted device was met from was noted too
  met_at-is_met :
      (es : List Predecessor) (k : String)
      → IsTrail edges source es
      → is_met es k ≡ true
      → ((k ≡ source) × (met_at es k ≡ some none))
        ⊎ ((p : String) × (met_at es k ≡ some (some p))
            × (is_met es p ≡ true)
            × AreJoined edges p k)
  met_at-is_met es k first h =
      let same : str_eq k source ≡ true = ground arith in
      inl ((eq_iff k source).0 same, met_at-head source none [] k same)
  met_at-is_met es k (later {es = rest} n p t there joined new) h = elim (Bool-cases (str_eq k n)) [
    | inl same ↦ inr (
      p,
      met_at-head n (some p) rest k same,
      ground arith,
      subst (AreJoined edges p) (sym ((eq_iff k n).0 same)) joined,
    )
    | inr other ↦ elim (met_at-is_met rest k t (ground arith)) [
      | inl (at_source, met) ↦ inl (at_source, met_at-tail n (some p) rest k other ∙ met)
      | inr (q, met, noted_q, joined_q) ↦
          inr (q, met_at-tail n (some p) rest k other ∙ met, ground arith, joined_q)
    ]
  ]

  trace-stop :
      (fuel : ℕ) (es : List Predecessor) (k : String)
      → met_at es k ≡ some none
      → trace (suc fuel) es k ≡ some (k ∷ [])
  unfolding trace
  trace-stop fuel es k e = rw (e, trace) refl

  trace-onward :
      (fuel : ℕ) (es : List Predecessor) (k p : String)
      → met_at es k ≡ some (some p)
      → trace (suc fuel) es k ≡ onward k (trace fuel es p)
  unfolding trace
  trace-onward fuel es k p e = rw (e, trace) refl

  -- a note that was added later does not change the way back
  trace-skip :
      (fuel : ℕ) (n : String) (o : Option String) (es : List Predecessor) (k : String)
      → IsTrail edges source es
      → is_met es n ≡ false
      → is_met es k ≡ true
      → trace fuel ((n, o) ∷ es) k ≡ trace fuel es k
  unfolding trace
  trace-skip zero n o es k t new yes_k = refl
  trace-skip (suc fuel) n o es k t new yes_k =
      let skip = met_at-tail n o es k (differs es k n yes_k new) in
      elim (met_at-is_met es k t yes_k) [
        | inl (at_source, met) ↦
            trace-stop fuel ((n, o) ∷ es) k (skip ∙ met) ∙ sym (trace-stop fuel es k met)
        | inr (p, met, yes_p, joined) ↦
            trace-onward fuel ((n, o) ∷ es) k p (skip ∙ met)
            ∙ ap (onward k) (trace-skip fuel n o es p t new yes_p)
            ∙ sym (trace-onward fuel es k p met)
      ]

  -- the path that the way back gives, turned round, is a walk from the source
  abbrev pub IsTraced : ℕ → List Predecessor → String → Type 0
  IsTraced fuel es k =
      (path : List String) × (trace fuel es k ≡ some path) × Walk edges source k (reverse path)

  pub trace_walks :
      (fuel : ℕ) (es : List Predecessor) (k : String)
      → length es ≤ fuel
      → IsTrail edges source es
      → is_met es k ≡ true
      → IsTraced fuel es k
  unfolding IsTraced
  trace_walks zero es k enough first yes_k = absurd (omega arith)
  trace_walks zero es k enough (later n p t there joined new) yes_k = absurd (omega arith)
  trace_walks (suc fuel) es k enough first yes_k =
      let same = (eq_iff k source).0 (ground arith) in
      (
        k ∷ [],
        trace-stop fuel es k (met_at-head source none [] k (ground arith)),
        subst (λ s. Walk edges s k (k ∷ [])) same stand,
      )
  trace_walks (suc fuel) es k enough (later {es = rest} n p t there joined new) yes_k =
      elim (Bool-cases (str_eq k n)) [
        | inl same ↦
            let (path, traced, walk) = trace_walks fuel rest p (omega arith) t there in
            let here = (eq_iff k n).0 same in
            (
              k ∷ path,
              trace-onward fuel ((n, some p) ∷ rest) k p (met_at-head n (some p) rest k same)
                  ∙ ap (onward k) (trace-skip fuel n (some p) rest p t new there ∙ traced),
              subst (Walk edges source k) (sym (reverse-cons k path))
                  (extend walk (subst (AreJoined edges p) (sym here) joined)),
            )
        | inr other ↦
            let yes : is_met rest k ≡ true = ground arith in
            let (path, traced, walk) = trace_walks (suc fuel) rest k (omega arith) t yes in
            (path, trace-skip (suc fuel) n (some p) rest k t new yes ∙ traced, walk)
      ]
