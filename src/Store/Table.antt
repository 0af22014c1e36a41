-- ===== src/Store/Table.antt =====
-- A table as the list of its rows, read and updated by a key column.
pub mod Counting
use ai_ops.Prelude.{
  ℕ, String, ◌≡◌, refl, ◌↔◌, Bool, true, false, Option, none, some, List, [], ◌∷◌, ◌++◌, arith,
  str_eq, eq_iff, ◌==◌, if◌then◌else◌, Bool-cases, inl, inr,
}
use mathlib.Core.Option

-- What a column needs to be a key.
pub record Key (K : Type 0) : Type 0 where
  pub beq : K → K → Bool
  pub beq_iff : (a b : K) → (beq a b ≡ true) ↔ (a ≡ b)

pub nat_beq_iff : (a b : ℕ) → ((a == b) ≡ true) ↔ (a ≡ b)
nat_beq_iff a b = ground arith

instance abbrev pub string_key : Key String
string_key = record { beq = str_eq; beq_iff = eq_iff }

instance abbrev pub nat_key : Key ℕ
nat_key = record { beq = λ a b. a == b; beq_iff = nat_beq_iff }

module _ {K R : Type 0} ⦃e : Key K⦄ (key : R → K) where
  -- `SELECT * FROM t WHERE key = ?`
  unfoldable pub find_row : K → List R → Option R
  find_row k [] = none
  find_row k (r ∷ rs) = if e.beq (key r) k then some r else find_row k rs

  -- `UPDATE t SET ... WHERE key = ?`
  unfoldable pub update_row : K → (R → R) → List R → List R
  update_row k f [] = []
  update_row k f (r ∷ rs) = (if e.beq (key r) k then f r else r) ∷ update_row k f rs

  pub beq_self : (k : K) → e.beq k k ≡ true
  beq_self k = (e.beq_iff k k).1 refl

  pub key-find_row : (k : K) (rows : List R) {r : R} → find_row k rows ≡ some r → key r ≡ k
  unfolding find_row
  key-find_row k [] h = absurd (ground arith)
  key-find_row k (x ∷ xs) {r} h = ground (arith, key-find_row k xs {r = r}, e.beq_iff (key x) k)

  pub find_row-update :
      (k j : K) (f : R → R) (rows : List R)
      → ((r : R) → key (f r) ≡ key r)
      → find_row j (update_row k f rows)
        ≡ (if e.beq k j then Option.map f (find_row j rows) else find_row j rows)
  unfolding find_row update_row
  find_row-update k j f [] keeps = ground arith
  find_row-update k j f (x ∷ xs) keeps = ground (
    arith,
    keeps x,
    find_row-update k j f xs keeps,
    e.beq_iff (key x) k,
    e.beq_iff (key x) j,
    e.beq_iff k j,
  )

  pub find_row-append :
      (j : K) (rows : List R) (r : R)
      → find_row j (rows ++ r ∷ []) ≡ elim (find_row j rows) [
        | some x ↦ some x
        | none ↦ if e.beq (key r) j then some r else none
      ]
  unfolding find_row
  find_row-append j [] r = refl
  find_row-append j (x ∷ xs) r = ground (arith, find_row-append j xs r)
