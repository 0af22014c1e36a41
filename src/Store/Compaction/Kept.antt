-- ===== src/Store/Compaction/Kept.antt =====
-- Rows by a text of theirs: which stay when rows of some ids are deleted, and what they refer to.
use ai_ops.Prelude.{
  keep_cong, ◌≡◌, refl, ap, ◌∙◌, String, Bool, true, false, not, ◌&&◌, List, [], ◌∷◌, any, all,
  keep, str_eq, arith, All, Bool-cases, inl, inr, eq_iff,
}
use ai_ops.Store.Compaction.{refers, delete}

abbrev pub is_in : List String → String → Bool
is_in ids k = any (λ id. str_eq k id) ids

module _ {R : Type 0} where
  pub keep-keep : (p q : R → Bool) (xs : List R) → keep p (keep q xs) ≡ keep (λ x. q x && p x) xs
  keep-keep p q [] = refl
  keep-keep p q (x ∷ xs) = ground (arith, keep-keep p q xs)

  pub all-keep : (p q : R → Bool) (xs : List R) → all p xs ≡ true → all p (keep q xs) ≡ true
  all-keep p q [] h = refl
  all-keep p q (x ∷ xs) h = ground (arith, all-keep p q xs)

  pub all-both :
      (p q : R → Bool) (xs : List R)
      → all p xs ≡ true
      → all q xs ≡ true
      → all (λ x. p x && q x) xs ≡ true
  all-both p q [] h k = refl
  all-both p q (x ∷ xs) h k = ground (arith, all-both p q xs)

  pub all_cong : (p q : R → Bool) (xs : List R) → ((x : R) → p x ≡ q x) → all p xs ≡ all q xs
  all_cong p q [] h = refl
  all_cong p q (x ∷ xs) h = ground (arith, h x, all_cong p q xs h)

  pub not-any : (p : R → Bool) (xs : List R) → any p xs ≡ false → all (λ x. not (p x)) xs ≡ true
  not-any p [] h = refl
  not-any p (x ∷ xs) h = ground (arith, not-any p xs)

  pub all-true : (xs : List R) → all (λ x. true) xs ≡ true
  all-true [] = refl
  all-true (x ∷ xs) = all-true xs

module _ {R : Type 0} (key : R → String) where
  -- the rows of none of the ids
  unfoldable pub without_ids : List String → List R → List R
  without_ids ids rows = keep (λ r. not (is_in ids (key r))) rows

  pub without_ids-delete :
      (id : String) (ids : List String) (rows : List R)
      → without_ids ids (delete key id rows) ≡ without_ids (id ∷ ids) rows
  unfolding without_ids
  without_ids-delete id ids rows =
      keep-keep (λ r. not (is_in ids (key r))) (λ r. not (str_eq (key r) id)) rows
      ∙ keep_cong _ _ rows (λ r. ground arith)

  pub without_ids-none : (rows : List R) → without_ids [] rows ≡ rows
  unfolding without_ids
  without_ids-none [] = refl
  without_ids-none (r ∷ rs) = ap (λ t. r ∷ t) (without_ids-none rs)

  -- an id is left exactly if a row had it and it was not deleted
  pub refers-without_ids :
      (k : String) (ids : List String) (rows : List R)
      → refers key k (without_ids ids rows) ≡ (refers key k rows && not (is_in ids k))
  unfolding without_ids
  refers-without_ids k ids [] = refl
  refers-without_ids k ids (r ∷ rs) = elim (Bool-cases (str_eq (key r) k)) [
    | inl same ↦
        ground (arith, refers-without_ids k ids rs, ap (is_in ids) ((eq_iff (key r) k).0 same))
    | inr other ↦ ground (arith, refers-without_ids k ids rs)
  ]

  -- rows that refer to none of the ids
  pub unreferred :
      (ids : List String) (rows : List R)
      → All (λ id. refers key id rows ≡ false) ids
      → all (λ r. not (is_in ids (key r))) rows ≡ true
  unreferred [] rows h = all-true rows
  unreferred (id ∷ ids) rows h =
      all_cong _ (λ r. not (str_eq (key r) id) && not (is_in ids (key r))) rows (λ r. ground arith)
      ∙ all-both (λ r. not (str_eq (key r) id)) (λ r. not (is_in ids (key r))) rows
          (not-any (λ r. str_eq (key r) id) rows h.0) (unreferred ids rows h.1)

  -- where the rows are kept with what they refer to, nothing dangles
  pub all-without_ids :
      (has : String → Bool) (ids : List String) (rows : List R)
      → all (λ r. has (key r)) rows ≡ true
      → all (λ r. has (key r) && not (is_in ids (key r))) (without_ids ids rows) ≡ true
  unfolding without_ids
  all-without_ids has ids [] h = refl
  all-without_ids has ids (r ∷ rs) h = ground (arith, all-without_ids has ids rs)
