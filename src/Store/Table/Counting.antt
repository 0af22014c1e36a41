-- ===== src/Store/Table/Counting.antt =====
-- How many rows of a table satisfy a test, before and after an UPDATE by the key.
use ai_ops.Prelude.{
  ◌≤◌, ◌≡◌, refl, Bool, true, none, some, List, [], ◌∷◌, arith, count_if, find_first, Bool-cases,
  inl, inr,
}
use ai_ops.Store.Table.{Key, find_row, update_row}

pub count_if_of_find_first {ℓ} :
    {R : Type ℓ} (p : R → Bool) (rows : List R) → find_first p rows ≡ none → count_if p rows ≡ 0
count_if_of_find_first p [] h = refl
count_if_of_find_first p (x ∷ xs) h = ground (arith, count_if_of_find_first p xs)

pub find_first-holds {ℓ} :
    {R : Type ℓ} (p : R → Bool) (rows : List R) {r : R} → find_first p rows ≡ some r → p r ≡ true
find_first-holds p [] h = absurd (ground arith)
find_first-holds p (x ∷ xs) {r} h = ground (arith, find_first-holds p xs {r = r})

module _ {K R : Type 0} ⦃e : Key K⦄ (key : R → K) where
  pub count_key_of_find_row :
      (k : K) (rows : List R)
      → find_row key k rows ≡ none
      → count_if (λ r. e.beq (key r) k) rows ≡ 0
  unfolding find_row
  count_key_of_find_row k [] h = refl
  count_key_of_find_row k (x ∷ xs) h = ground (arith, count_key_of_find_row k xs)

  pub count_key-update :
      (k j : K) (f : R → R) (rows : List R)
      → ((r : R) → key (f r) ≡ key r)
      → count_if (λ r. e.beq (key r) j) (update_row key k f rows)
        ≡ count_if (λ r. e.beq (key r) j) rows
  unfolding update_row
  count_key-update k j f [] keeps = refl
  count_key-update k j f (x ∷ xs) keeps = ground (arith, keeps x, count_key-update k j f xs keeps)

  -- An UPDATE of a key that no row has changes nothing.
  update_row_missing :
      (k : K) (f : R → R) (rows : List R)
      → count_if (λ r. e.beq (key r) k) rows ≡ 0
      → update_row key k f rows ≡ rows
  unfolding update_row
  update_row_missing k f [] h = refl
  update_row_missing k f (x ∷ xs) h = ground (arith, update_row_missing k f xs)

  -- With unique keys, an UPDATE that does not make its row pass a test adds no row that passes it.
  pub count_if-update :
      (p : R → Bool) (k : K) (f : R → R) (rows : List R) (row : R)
      → find_row key k rows ≡ some row
      → count_if (λ r. e.beq (key r) k) rows ≤ 1
      → (p (f row) ≡ true → p row ≡ true)
      → count_if p (update_row key k f rows) ≤ count_if p rows
  unfolding update_row find_row
  count_if-update p k f [] row found unique h = absurd (ground arith)
  count_if-update p k f (x ∷ xs) row found unique h = elim (Bool-cases (e.beq (key x) k)) [
    | inl hit ↦ ground (arith, hit, found, unique, h, update_row_missing k f xs)
    | inr miss ↦ ground (arith, miss, found, unique, count_if-update p k f xs row)
  ]

  -- An UPDATE that leaves a test alone leaves its count alone.
  pub count_if-update_same :
      (p : R → Bool) (k : K) (f : R → R) (rows : List R)
      → ((r : R) → p (f r) ≡ p r)
      → count_if p (update_row key k f rows) ≡ count_if p rows
  unfolding update_row
  count_if-update_same p k f [] same = refl
  count_if-update_same p k f (x ∷ xs) same =
      ground (arith, same x, count_if-update_same p k f xs same)
