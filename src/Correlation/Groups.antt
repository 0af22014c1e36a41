-- ===== src/Correlation/Groups.antt =====
-- incident_correlation.py: `groups.setdefault(key, []).append(d)`, for keys that are lists of texts.
use ai_ops.Prelude.{
  ◌≡◌, ◌↔◌, inl, inr, refl, sym, ap, ◌∙◌, String, Bool, true, false, ◌&&◌, Option, none, some, List,
  [], ◌∷◌, ◌++◌, str_eq, eq_iff, keep, if◌then◌else◌, All, arith, Bool-cases,
}
use mathlib.Core.List.{append_assoc, append-nil}

abbrev pub same_key : List String → List String → Bool
same_key [] [] = true
same_key [] (b ∷ bs) = false
same_key (a ∷ ks) [] = false
same_key (a ∷ ks) (b ∷ bs) = str_eq a b && same_key ks bs

pub same_key_iff : (a b : List String) → (same_key a b ≡ true) ↔ (a ≡ b)
same_key_iff [] [] = (λ h. refl, λ h. refl)
same_key_iff [] (b ∷ bs) = (λ h. absurd (ground arith), λ h. absurd (ground arith))
same_key_iff (a ∷ ks) [] = (λ h. absurd (ground arith), λ h. absurd (ground arith))
same_key_iff (a ∷ ks) (b ∷ bs) = (
  λ h. ground (arith, eq_iff a b, same_key_iff ks bs),
  λ h. ground (arith, eq_iff a b, same_key_iff ks bs),
)

abbrev pub has_key : List String → Option (List String) → Bool
has_key k none = false
has_key k (some j) = same_key j k

module _ {A : Type 0} where
  -- the dictionary of groups, in the order of insertion
  unfoldable pub put : List String → A → List (List String × List A) → List (List String × List A)
  put k a [] = (k, a ∷ []) ∷ []
  put k a ((j, ms) ∷ gs) =
      let rest = put k a gs in if same_key j k then (j, ms ++ a ∷ []) ∷ gs else (j, ms) ∷ rest

  abbrev pub put_if :
      Option (List String) → A → List (List String × List A) → List (List String × List A)
  put_if none a gs = gs
  put_if (some k) a gs = put k a gs

  -- the loop, from some groups on; what has no key is skipped
  unfoldable pub group_by :
      (A → Option (List String))
      → List (List String × List A)
      → List A
      → List (List String × List A)
  unfolding put
  group_by key gs [] = gs
  group_by key gs (a ∷ more) = group_by key (put_if (key a) a gs) more

  abbrev pub members_of : List String → List (List String × List A) → List A
  members_of k [] = []
  members_of k ((j, ms) ∷ gs) = let rest = members_of k gs in if same_key j k then ms else rest

  -- a put changes the group of its key alone
  members_of-put :
      (k j : List String) (a : A) (gs : List (List String × List A))
      → members_of k (put j a gs)
        ≡ (if same_key j k then members_of k gs ++ a ∷ [] else members_of k gs)
  unfolding put
  members_of-put k j a [] = ground arith
  members_of-put k j a ((i, ms) ∷ gs) =
      ground (arith, members_of-put k j a gs, same_key_iff i j, same_key_iff i k, same_key_iff j k)

  members_of-put_if :
      (k : List String) (o : Option (List String)) (a : A) (gs : List (List String × List A))
      → members_of k (put_if o a gs)
        ≡ (if has_key k o then members_of k gs ++ a ∷ [] else members_of k gs)
  members_of-put_if k none a gs = refl
  members_of-put_if k (some j) a gs = members_of-put k j a gs

  append-if :
      (b : Bool) (xs ys : List A) (a : A)
      → (if b then xs ++ a ∷ [] else xs) ++ ys ≡ xs ++ (if b then a ∷ ys else ys)
  append-if true xs ys a = append_assoc xs (a ∷ []) ys
  append-if false xs ys a = refl

  -- the group of a key has the elements of that key, in their order
  pub members_of-group_by :
      (key : A → Option (List String)) (k : List String) (gs : List (List String × List A))
      (xs : List A)
      → members_of k (group_by key gs xs) ≡ members_of k gs ++ keep (λ a. has_key k (key a)) xs
  unfolding group_by
  members_of-group_by key k gs [] = sym (append-nil (members_of k gs))
  members_of-group_by key k gs (a ∷ more) =
      members_of-group_by key k (put_if (key a) a gs) more
      ∙ ap (λ ms. ms ++ keep (λ x. has_key k (key x)) more) (members_of-put_if k (key a) a gs)
      ∙ append-if (has_key k (key a)) (members_of k gs) (keep (λ x. has_key k (key x)) more) a

  -- each key has one group
  abbrev pub OneEach : List (List String × List A) → Type 0
  OneEach [] = Unit
  OneEach (g ∷ gs) = All (λ (x : List String × List A). same_key x.0 g.0 ≡ false) gs × OneEach gs

  abbrev Others : List String → List (List String × List A) → Type 0
  Others k = All (λ (x : List String × List A). same_key x.0 k ≡ false)

  Others-put :
      (k j : List String) (a : A) (gs : List (List String × List A))
      → same_key j k ≡ false
      → Others k gs
      → Others k (put j a gs)
  unfolding put
  Others-put k j a [] h o = (h, tt)
  Others-put k j a ((i, ms) ∷ gs) h o = elim (Bool-cases (same_key i j)) [
    | inl e ↦ rw e o
    | inr e ↦ rw e (o.0, Others-put k j a gs h o.1)
  ]

  OneEach-put :
      (j : List String) (a : A) (gs : List (List String × List A))
      → OneEach gs
      → OneEach (put j a gs)
  unfolding put
  OneEach-put j a [] o = (tt, tt)
  OneEach-put j a ((i, ms) ∷ gs) o = elim (Bool-cases (same_key i j)) [
    | inl e ↦ rw e o
    | inr e ↦ rw e (
      Others-put i j a gs (ground (arith, same_key_iff i j, same_key_iff j i)) o.0,
      OneEach-put j a gs o.1,
    )
  ]

  OneEach-put_if :
      (o : Option (List String)) (a : A) (gs : List (List String × List A))
      → OneEach gs
      → OneEach (put_if o a gs)
  OneEach-put_if none a gs h = h
  OneEach-put_if (some j) a gs h = OneEach-put j a gs h

  pub group_by-OneEach :
      (key : A → Option (List String)) (gs : List (List String × List A)) (xs : List A)
      → OneEach gs
      → OneEach (group_by key gs xs)
  unfolding group_by
  group_by-OneEach key gs [] o = o
  group_by-OneEach key gs (a ∷ more) o =
      group_by-OneEach key (put_if (key a) a gs) more (OneEach-put_if (key a) a gs o)
