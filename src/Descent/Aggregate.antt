-- ===== src/Descent/Aggregate.antt =====
-- descent.py: `_aggregate` against the verdict it means, read from the members' statuses alone.
use ai_ops.Prelude.{
  ◌≡◌, refl, Bool, true, false, ◌&&◌, Option, some, List, [], ◌∷◌, ◌++◌, String, All, any, all,
  count_if, length, count_if-le-length, ltb, ◌==◌, arith, if◌then◌else◌, Bool-cases, inl, inr,
}
use ai_ops.Checks.{
  Status, healthy, broken, unevaluated, CheckResult, is_valid, make_result, is_healthy,
  is_unevaluated, is_nil,
}
use ai_ops.Flows.{Aggregation, Rung}
use ai_ops.Descent.{
  aggregate, status_is, is_any, or_else, unread_result, read_result, empty_result, flat_keys,
}

-- the verdict of a set: one unread member leaves it unread, and nothing read is not healthy
unfoldable pub verdict : Bool → List CheckResult → Status
verdict any_suffices [] = unevaluated
verdict any_suffices (r ∷ rs) =
    if any (status_is is_unevaluated) (r ∷ rs)
    then unevaluated
    else if any_suffices
    then (if any (status_is is_healthy) (r ∷ rs) then healthy else broken)
    else (if all (status_is is_healthy) (r ∷ rs) then healthy else broken)

abbrev pub AllValid : List CheckResult → Type 0
AllValid = All (λ r. is_valid r ≡ true)

count-any : (p : CheckResult → Bool) (rs : List CheckResult) → ltb 0 (count_if p rs) ≡ any p rs
count-any p [] = refl
count-any p (r ∷ rs) = ground (arith, count-any p rs)

count-all :
    (p : CheckResult → Bool) (rs : List CheckResult) → (count_if p rs == length rs) ≡ all p rs
count-all p [] = refl
count-all p (r ∷ rs) = ground (arith, count-all p rs, count_if-le-length p rs)

made : (r : CheckResult) → is_valid r ≡ true → make_result r ≡ some r
unfolding make_result
made r h = ground arith

is_nil-append : (xs ys : List String) → is_nil (xs ++ ys) ≡ (is_nil xs && is_nil ys)
is_nil-append [] ys = refl
is_nil-append (x ∷ xs) ys = refl

-- a conclusive member has keys, and so has the set it is in
cites :
    (rs : List CheckResult)
    → AllValid rs
    → any (status_is is_unevaluated) rs ≡ false
    → is_nil rs ≡ false
    → is_nil (flat_keys rs) ≡ false
unfolding is_valid
cites [] valid read some_member = some_member
cites (r ∷ rs) valid read some_member =
    let split = is_nil-append r.evidence_keys (flat_keys rs) in ground arith

single : (any_suffices : Bool) (r : CheckResult) → r.status ≡ verdict any_suffices (r ∷ [])
unfolding verdict
single any_suffices r = ground arith

several :
    (rung : Rung) (rs : List CheckResult) (subject : Option String) (any_suffices : Bool)
    → AllValid rs
    → any (status_is is_unevaluated) rs ≡ false
    → is_nil rs ≡ false
    → (is_valid (read_result any_suffices rs subject) ≡ true)
      × ((read_result any_suffices rs subject).status ≡ verdict any_suffices rs)
unfolding is_valid read_result verdict
several rung [] subject how valid read some_member = ground arith
several rung (r ∷ rs) subject how valid read some_member =
    let keys = cites (r ∷ rs) valid read refl in
    let c1 = count-any (status_is is_healthy) (r ∷ rs) in
    let c2 = count-all (status_is is_healthy) (r ∷ rs) in (ground arith, ground arith)

-- The combined verdict of members that cite their evidence is always produced, cites evidence
-- itself, and is the verdict their statuses mean: a member that could not be read leaves the set
-- unread under either aggregation, an empty set is unread, and else one healthy member or all of
-- them decide.
pub aggregate-verdict :
    (rung : Rung) (results : List CheckResult) (how : Option Aggregation)
    → AllValid results
    → (r : CheckResult) × (aggregate rung results how ≡ some r)
      × (is_valid r ≡ true)
      × (r.status ≡ verdict (is_any (or_else how rung.aggregation)) results)
unfolding aggregate verdict is_valid make_result read_result unread_result empty_result
aggregate-verdict rung [] how valid = (empty_result rung, refl, refl, refl)
aggregate-verdict rung (r ∷ []) how valid =
    (r, refl, valid.0, single (is_any (or_else how rung.aggregation)) r)
aggregate-verdict rung (r ∷ s ∷ rs) how valid =
    elim (Bool-cases (any (status_is is_unevaluated) (r ∷ s ∷ rs))) [
      | inl e ↦ (unread_result (r ∷ s ∷ rs) r.subject, ground arith, refl, ground arith)
      | inr e ↦
          let way = is_any (or_else how rung.aggregation) in
          let (v, st) = several rung (r ∷ s ∷ rs) r.subject way valid e refl in
          (read_result way (r ∷ s ∷ rs) r.subject, ground arith, v, st)
    ]
