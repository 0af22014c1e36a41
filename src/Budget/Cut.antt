-- ===== src/Budget/Cut.antt =====
-- What the truncation of a section keeps of it.
use Prim.Native.Nat.{◌/◌}
use Prim.Native.String.{count}
use text.Mathlib.TextLemmas.{length-nil, length-append}
use ai_ops.Prelude.{
  ◌≡◌, refl, sym, ap, ◌∙◌, ◌⊎◌, inl, inr, ℕ, zero, suc, ◌+◌, ◌-◌, ◌≤◌, ◌<◌, String, str_append,
  true, leb, Bool-cases, is_empty, arith, leb→le, le→leb, not-leb→lt, ◌==◌, if◌then◌else◌,
}
use ai_ops.Budget.{
  ℤ, pos, first, from_index, tail_of, omitted_of, marked, rendered, shrink_head, shrink, spelled,
  kept_of, truncate_middle,
}
use ai_ops.Budget.Slices.{
  first-from_index, from_index_twice, count-first, first_all, count-from_index, from_index_all,
}

empty-count : (s : String) → is_empty s ≡ true → count s ≡ 0
empty-count String.[] e = length-nil
empty-count (String.◌∷◌ c s) e = grind arith

-- the marked text is at least as long as what it keeps
count-marked :
    (head : String) (o : ℤ) (tail : String) → count head + count tail ≤ count (marked head o tail)
unfolding marked
count-marked head o tail = elim (Bool-cases (is_empty tail)) [
  | inl e ↦ rw e (
      omega (
        arith,
        empty-count tail e,
        length-append head
            (str_append "\n[TRUNCATED: " (str_append (spelled o) " characters omitted]")),
      ))
  | inr e ↦ rw e (
      omega (
        arith,
        length-append head
            (str_append "\n[TRUNCATED: " (str_append (spelled o) " characters omitted]")),
        length-append
            (str_append head
              (str_append "\n[TRUNCATED: " (str_append (spelled o) " characters omitted]")))
            (str_append "\n" tail),
        length-append "\n" tail,
      ))
]

count-tail_of : (text : String) (t : ℕ) → t ≤ count text → count (tail_of text t) ≡ t
unfolding tail_of
count-tail_of text t h = elim (Bool-cases (t == 0)) [
  | inl z ↦ rw z (length-nil ∙ grind arith)
  | inr z ↦
      rw z (
        rw (le→leb t (count text) h, tail_of)
          (count-from_index (count text - t) text ∙ omega arith))
]

-- what fits leaves something out
fits_within :
    (text : String) (budget h t : ℕ)
    → t ≤ h
    → count (rendered text h t) ≤ budget
    → budget < count text
    → h + t ≤ count text
unfolding rendered
fits_within text budget h t th fits over =
    let kept = count-marked (first h text) (omitted_of text h t) (tail_of text t) in
    elim (Bool-cases (leb h (count text))) [
      | inl le ↦ omega (
        arith,
        kept,
        count-first h text (leb→le h (count text) le),
        count-tail_of text t (omega (arith, th, leb→le h (count text) le)),
      )
      | inr gt ↦ absurd (
          omega (
            arith,
            kept,
            ap count (first_all h text (omega (arith, not-leb→lt h (count text) gt))),
          ))
    ]

-- the text is what is kept before, what is left out and what is kept after: the number left out is the
-- one in the marker, and the result fits the budget unless nothing is kept
abbrev pub IsCut : String → ℕ → String × ℤ → Type 0
IsCut text budget (result, omitted) =
    (front : String) × (middle : String) × (back : String) × (text
      ≡ str_append front (str_append middle back))
    × (result ≡ marked front (pos (count middle)) back)
    × (omitted ≡ pos (count middle))
    × (count back ≤ count front)
    × ((count result ≤ budget) ⊎ (count front ≡ 0))

-- the tail is what follows the kept start and what is left out
tail_of-split :
    (text : String) (h t : ℕ)
    → h + t ≤ count text
    → tail_of text t ≡ from_index (count text - (h + t)) (from_index h text)
unfolding tail_of
tail_of-split text h t le = elim (Bool-cases (t == 0)) [
  | inl z ↦ rw z (
      sym (
        from_index_twice (count text - (h + t)) h text
        ∙ from_index_all (h + (count text - (h + t))) text (grind (arith, z, le))))
  | inr z ↦ rw z (
      rw (le→leb t (count text) (omega (arith, le)), tail_of)
        (sym (
          from_index_twice (count text - (h + t)) h text
          ∙ ap (λ k. from_index k text) (omega (arith, le)))))
]

marker_omitted :
    (text : String) (h t : ℕ)
    → h + t ≤ count text
    → omitted_of text h t ≡ pos (count text - (h + t))
marker_omitted text h t le = rw (le→leb (h + t) (count text) le) refl

rendered-IsCut :
    (text : String) (budget h t : ℕ)
    → t ≤ h
    → h + t ≤ count text
    → ((count (rendered text h t) ≤ budget) ⊎ (h ≡ 0))
    → IsCut text budget (rendered text h t, omitted_of text h t)
unfolding rendered
rendered-IsCut text budget h t th le fits =
    let gap = count text - (h + t) in
    let rest = from_index h text in
    let size = count-first gap rest (omega (arith, count-from_index h text)) in
    let omitted = marker_omitted text h t le ∙ ap pos (sym size) in
    (
      first h text,
      first gap rest,
      from_index gap rest,
      sym (ap (str_append (first h text)) (first-from_index gap rest) ∙ first-from_index h text),
      ap (λ o. marked (first h text) o (tail_of text t)) omitted
          ∙ ap (marked (first h text) (pos (count (first gap rest)))) (tail_of-split text h t le),
      omitted,
      omega (
        arith,
        th,
        count-from_index gap rest,
        count-from_index h text,
        count-first h text (omega (arith, le)),
      ),
      elim fits [
        | inl small ↦ inl small
        | inr nothing ↦ inr (count-first h text (omega (arith, le)) ∙ nothing)
      ],
    )

pick-IsCut :
    (text : String) (budget h t : ℕ) (rest : String × ℤ)
    → t ≤ h
    → budget < count text
    → IsCut text budget rest
    → IsCut text budget (
        if leb (count (rendered text h t)) budget
        then (rendered text h t, omitted_of text h t)
        else rest)
pick-IsCut text budget h t rest th over c =
    elim (Bool-cases (leb (count (rendered text h t)) budget)) [
      | inl fits ↦ rw fits (
          let small = leb→le (count (rendered text h t)) budget fits in
          rendered-IsCut text budget h t th (fits_within text budget h t th small over) (inl small))
      | inr long ↦ rw long c
    ]

shrink_head-IsCut :
    (text : String) (budget h : ℕ)
    → budget < count text
    → IsCut text budget (shrink_head text budget h)
unfolding shrink_head
shrink_head-IsCut text budget zero over =
    rendered-IsCut text budget 0 0 (omega arith) (omega arith) (inr refl)
shrink_head-IsCut text budget (suc h) over =
    pick-IsCut text budget (suc h) 0 (shrink_head text budget h) (omega arith) over
      (shrink_head-IsCut text budget h over)

shrink-IsCut :
    (text : String) (budget h t : ℕ)
    → t ≤ h
    → budget < count text
    → IsCut text budget (shrink text budget h t)
unfolding shrink
shrink-IsCut text budget h zero th over = shrink_head-IsCut text budget h over
shrink-IsCut text budget h (suc t) th over =
    pick-IsCut text budget h (suc t) (shrink text budget h t) th over
      (shrink-IsCut text budget h t (omega (arith, th)) over)

-- the half kept at the end is the smaller one
half : (n : ℕ) → n / 2 ≤ n - n / 2
half n = omega arith

-- A text within a positive budget, and any text where the budget is not positive, is returned
-- unchanged with nothing omitted. Of any other, the loop ends with a start and an end of the text
-- around a marker: the text is the start, what is left out and the end in order, the marker and the
-- answer both give the number of characters left out, which is thus never negative, the end is not
-- longer than the start, and the result fits the budget unless nothing of the text is kept.
pub truncate_middle-IsCut :
    (text : String) (budget : ℕ)
    → (((budget ≡ 0) ⊎ (count text ≤ budget)) × (truncate_middle text budget ≡ (text, pos 0)))
      ⊎ ((0 < budget) × (budget < count text) × IsCut text budget (truncate_middle text budget))
unfolding truncate_middle
truncate_middle-IsCut text budget = elim (Bool-cases (budget == 0)) [
  | inl none_given ↦ rw none_given (inl (inl (grind (arith, none_given)), refl))
  | inr given ↦ rw given (elim (Bool-cases (leb (count text) budget)) [
    | inl within ↦ rw within (inl (inr (leb→le (count text) budget within), refl))
    | inr over ↦ rw over (
        inr (
          grind (arith, given),
          not-leb→lt (count text) budget over,
          shrink-IsCut text budget _ _ (half (kept_of budget))
              (not-leb→lt (count text) budget over),
        ))
  ])
]
