-- ===== src/Logs/Episodes/Order.antt =====
-- The timed records after the sort: the same ones, in the order of their timestamps.
use ai_ops.Prelude.{
  ◌≡◌, refl, sym, ap, subst, if◌then◌else◌, true, false, List, [], ◌∷◌, arith, Bool-cases, inl, inr,
  ℕ,
}
use mathlib.Core.List.{Permᴰ}
use mathlib.Core.List.Permᴰ
use mathlib.Core.List.Permᴰ.{nil, cons, swap, trans}
use ai_ops.Logs.Clock.{DeviceTimestamp, is_before, lex_lt}
use ai_ops.Logs.Episodes.{Timed, insert, sort}

-- the first timestamp of a list is not before another
abbrev pub Follow : Timed → List Timed → Type 0
Follow a [] = Unit
Follow a (b ∷ ts) = is_before b.0 a.0 ≡ false

abbrev pub IsSorted : List Timed → Type 0
IsSorted [] = Unit
IsSorted (a ∷ ts) = Follow a ts × IsSorted ts

lex_lt-asym : (as_left bs : List ℕ) → lex_lt as_left bs ≡ true → lex_lt bs as_left ≡ false
unfolding lex_lt
lex_lt-asym [] [] h = refl
lex_lt-asym [] (b ∷ bs) h = refl
lex_lt-asym (a ∷ as_left) [] h = absurd (ground arith)
lex_lt-asym (a ∷ as_left) (b ∷ bs) h = ground (arith, lex_lt-asym as_left bs)

is_before-asym : (a b : DeviceTimestamp) → is_before a b ≡ true → is_before b a ≡ false
unfolding is_before
is_before-asym a b h =
    lex_lt-asym (a.month ∷ a.day ∷ a.hour ∷ a.minute ∷ a.second ∷ a.ms ∷ [])
      (b.month ∷ b.day ∷ b.hour ∷ b.minute ∷ b.second ∷ b.ms ∷ []) h

pub insert-before :
    (x y : Timed) (ts : List Timed) → is_before y.0 x.0 ≡ false → insert x (y ∷ ts) ≡ x ∷ y ∷ ts
unfolding insert
insert-before x y ts e = ap (λ b. if b then y ∷ insert x ts else x ∷ y ∷ ts) e

pub insert-after :
    (x y : Timed) (ts : List Timed) → is_before y.0 x.0 ≡ true → insert x (y ∷ ts) ≡ y ∷ insert x ts
unfolding insert
insert-after x y ts e = ap (λ b. if b then y ∷ insert x ts else x ∷ y ∷ ts) e

Follow-insert :
    (a x : Timed) (ts : List Timed)
    → is_before x.0 a.0 ≡ false
    → Follow a ts
    → Follow a (insert x ts)
unfolding insert
Follow-insert a x [] h f = h
Follow-insert a x (y ∷ ts) h f = elim (Bool-cases (is_before y.0 x.0)) [
  | inl e ↦ subst (Follow a) (sym (insert-after x y ts e)) f
  | inr e ↦ subst (Follow a) (sym (insert-before x y ts e)) h
]

insert-IsSorted : (x : Timed) (ts : List Timed) → IsSorted ts → IsSorted (insert x ts)
unfolding insert
insert-IsSorted x [] s = (tt, tt)
insert-IsSorted x (y ∷ ts) s = elim (Bool-cases (is_before y.0 x.0)) [
  | inl e ↦
      subst IsSorted (sym (insert-after x y ts e))
        (Follow-insert y x ts (is_before-asym y.0 x.0 e) s.0, insert-IsSorted x ts s.1)
  | inr e ↦ subst IsSorted (sym (insert-before x y ts e)) (e, s)
]

pub sort-IsSorted : (ts : List Timed) → IsSorted (sort ts)
unfolding sort
sort-IsSorted [] = tt
sort-IsSorted (t ∷ ts) = insert-IsSorted t (sort ts) (sort-IsSorted ts)

insert-Permᴰ : (x : Timed) (ts : List Timed) → Permᴰ (insert x ts) (x ∷ ts)
unfolding insert
insert-Permᴰ x [] = Permᴰ.refl (x ∷ [])
insert-Permᴰ x (y ∷ ts) = elim (Bool-cases (is_before y.0 x.0)) [
  | inl e ↦
      subst (λ l. Permᴰ l (x ∷ y ∷ ts)) (sym (insert-after x y ts e))
        (trans (cons refl (insert-Permᴰ x ts)) (swap refl refl))
  | inr e ↦
      subst (λ l. Permᴰ l (x ∷ y ∷ ts)) (sym (insert-before x y ts e)) (Permᴰ.refl (x ∷ y ∷ ts))
]

pub sort-Permᴰ : (ts : List Timed) → Permᴰ (sort ts) ts
unfolding sort
sort-Permᴰ [] = nil
sort-Permᴰ (t ∷ ts) = trans (insert-Permᴰ t (sort ts)) (cons refl (sort-Permᴰ ts))
