-- ===== src/Budget/Slices.antt =====
-- The slices `text[:n]` and `text[n:]` of evidence_budget.py.
use Prim.Native.String.{count}
use text.Mathlib.TextLemmas.{nil-append, cons-append, length-nil, length-cons}
use ai_ops.Prelude.{◌≡◌, refl, sym, ap, ◌∙◌, ℕ, zero, suc, ◌+◌, ◌-◌, ◌≤◌, String, str_append, arith}
use ai_ops.Budget.{first, from_index}

pub first-from_index : (n : ℕ) (s : String) → str_append (first n s) (from_index n s) ≡ s
unfolding first from_index
first-from_index zero s = nil-append s
first-from_index (suc n) String.[] = nil-append ""
first-from_index (suc n) (String.◌∷◌ c s) =
    cons-append c (first n s) (from_index n s) ∙ ap (String.◌∷◌ c) (first-from_index n s)

from_index_none : (n : ℕ) → from_index n "" ≡ ""
unfolding from_index
from_index_none zero = refl
from_index_none (suc n) = refl

zero_plus : (m : ℕ) → m ≡ 0 + m
zero_plus m = omega arith

suc_plus : (n m : ℕ) → suc (n + m) ≡ suc n + m
suc_plus n m = omega arith

pub from_index_twice : (m n : ℕ) (s : String) → from_index m (from_index n s) ≡ from_index (n + m) s
unfolding from_index
from_index_twice m zero s = ap (λ k. from_index k s) (zero_plus m)
from_index_twice m (suc n) String.[] = from_index_none m ∙ sym (from_index_none (suc n + m))
from_index_twice m (suc n) (String.◌∷◌ c s) =
    from_index_twice m n s ∙ ap (λ k. from_index k (String.◌∷◌ c s)) (suc_plus n m)

pub count-first : (n : ℕ) (s : String) → n ≤ count s → count (first n s) ≡ n
unfolding first
count-first zero s h = length-nil
count-first (suc n) String.[] h = omega (arith, length-nil)
count-first (suc n) (String.◌∷◌ c s) h =
    length-cons c (first n s) ∙ ap suc (count-first n s (omega (arith, length-cons c s)))

pub first_all : (n : ℕ) (s : String) → count s ≤ n → first n s ≡ s
unfolding first
first_all zero String.[] h = refl
first_all zero (String.◌∷◌ c s) h = absurd (omega (arith, length-cons c s))
first_all (suc n) String.[] h = refl
first_all (suc n) (String.◌∷◌ c s) h =
    ap (String.◌∷◌ c) (first_all n s (omega (arith, length-cons c s)))

pub count-from_index : (n : ℕ) (s : String) → count (from_index n s) ≡ count s - n
unfolding from_index
count-from_index zero s = omega arith
count-from_index (suc n) String.[] = omega (arith, length-nil)
count-from_index (suc n) (String.◌∷◌ c s) = count-from_index n s ∙ omega (arith, length-cons c s)

pub from_index_all : (n : ℕ) (s : String) → count s ≤ n → from_index n s ≡ ""
unfolding from_index
from_index_all zero String.[] h = refl
from_index_all zero (String.◌∷◌ c s) h = absurd (omega (arith, length-cons c s))
from_index_all (suc n) String.[] h = refl
from_index_all (suc n) (String.◌∷◌ c s) h = from_index_all n s (omega (arith, length-cons c s))
