-- ===== src/Topology/Build/Sorted.antt =====
-- Sorting keeps what holds of all the elements, and of some.
use ai_ops.Prelude.{◌≡◌, refl, ap, ◌∙◌, Bool, ◌&&◌, ◌||◌, List, [], ◌∷◌, any, all, arith}
use ai_ops.Topology.Build.{insert_by, sorted_by}

module _ {A : Type 0} where
  all-insert_by :
      (p : A → Bool) (leq : A → A → Bool) (x : A) (xs : List A)
      → all p (insert_by leq x xs) ≡ (p x && all p xs)
  unfolding insert_by
  all-insert_by p leq x [] = refl
  all-insert_by p leq x (y ∷ ys) = ground (arith, all-insert_by p leq x ys)

  pub all-sorted_by :
      (p : A → Bool) (leq : A → A → Bool) (xs : List A) → all p (sorted_by leq xs) ≡ all p xs
  unfolding sorted_by
  all-sorted_by p leq [] = refl
  all-sorted_by p leq (x ∷ xs) =
      all-insert_by p leq x (sorted_by leq xs) ∙ ap (λ b. p x && b) (all-sorted_by p leq xs)

  any-insert_by :
      (p : A → Bool) (leq : A → A → Bool) (x : A) (xs : List A)
      → any p (insert_by leq x xs) ≡ (p x || any p xs)
  unfolding insert_by
  any-insert_by p leq x [] = refl
  any-insert_by p leq x (y ∷ ys) = ground (arith, any-insert_by p leq x ys)

  pub any-sorted_by :
      (p : A → Bool) (leq : A → A → Bool) (xs : List A) → any p (sorted_by leq xs) ≡ any p xs
  unfolding sorted_by
  any-sorted_by p leq [] = refl
  any-sorted_by p leq (x ∷ xs) =
      any-insert_by p leq x (sorted_by leq xs) ∙ ap (λ b. p x || b) (any-sorted_by p leq xs)
