-- ===== src/Relay/Routes.antt =====
-- Who a finding is routed to.
use ai_ops.Prelude.{
  some-injective, none-some, ℕ, ◌≤◌, leb, ◌≡◌, ◌⊎◌, inl, inr, refl, sym, ap, ◌∙◌, String, Bool,
  true, false, Option, none, some, List, [], ◌∷◌, all, find_first, str_eq, eq_iff, arith,
  Bool-cases, Option-cases, if◌then◌else◌,
}
use ai_ops.Relay.Ownership.{
  Owner, OwnershipRule, OwnershipTable, RoutingResult, matches, owner_of, is_declared,
  escalates_inside, table_is_valid, rule_owner, rule_name, is_due, with_escalation, matching,
  resolve_ownership,
}

abbrev nothing : Option String
nothing = none

if-none : (b : Bool) → (if b then nothing else none) ≡ nothing
if-none true = refl
if-none false = refl

-- a declared name has an owner of that name
owner_of-declared :
    (owners : List Owner) (name : String)
    → is_declared owners name ≡ true
    → (o : Owner) × (owner_of owners name ≡ some o) × (o.name ≡ name)
unfolding owner_of
owner_of-declared [] name h = absurd (ground arith)
owner_of-declared (o ∷ os) name h = elim (Bool-cases (str_eq o.name name)) [
  | inl e ↦ (o, rw (e, owner_of) refl, (eq_iff o.name name).0 e)
  | inr e ↦
      let (p, found, named) = owner_of-declared os name (ground arith) in
      (p, rw (e, owner_of) found, named)
]

-- what holds of each owner holds of the one that is looked up
owner_of-all :
    (p : Owner → Bool) (owners : List Owner) (name : String) {o : Owner}
    → all p owners ≡ true
    → owner_of owners name ≡ some o
    → p o ≡ true
unfolding owner_of
owner_of-all p [] name h found = absurd (ground arith)
owner_of-all p (x ∷ xs) name {o} h found = elim (Bool-cases (str_eq x.name name)) [
  | inl e ↦
      let same : x ≡ o = some-injective (rw (e, owner_of) at found) in
      sym (ap p same) ∙ ground arith
  | inr e ↦ owner_of-all p xs name (ground arith) (rw (e, owner_of) at found)
]

find_first-all :
    (p q : OwnershipRule → Bool) (rules : List OwnershipRule) {r : OwnershipRule}
    → all q rules ≡ true
    → find_first p rules ≡ some r
    → q r ≡ true
find_first-all p q [] h found = absurd (ground arith)
find_first-all p q (x ∷ xs) {r} h found = elim (Bool-cases (p x)) [
  | inl e ↦ let same : x ≡ r = some-injective (rw e at found) in sym (ap q same) ∙ ground arith
  | inr e ↦ find_first-all p q xs (ground arith) (rw e at found)
]

-- the name that a finding is routed to: the owner of the first rule that matches it, or the default
abbrev pub routed_name : OwnershipTable → Option OwnershipRule → String
routed_name t none = t.default_owner
routed_name t (some r) = r.owner

-- the age of the finding has reached the limit after which it escalates to a name
pub IsDue : Option String → Option ℕ → Option ℕ → String → Type 0
IsDue to limit age name =
    (to ≡ some name) × ((l : ℕ) × (a : ℕ) × (limit ≡ some l) × (age ≡ some a) × (l ≤ a))

IsDue-cases :
    (to : Option String) (limit age : Option ℕ)
    → (((if is_due limit age then to else none) ≡ none)
        × ((name : String) → ¬ IsDue to limit age name))
      ⊎ ((name : String) × ((if is_due limit age then to else none) ≡ some name)
          × IsDue to limit age name)
unfolding IsDue
IsDue-cases none limit age = inl (if-none (is_due limit age), λ name due. none-some due.0)
IsDue-cases (some name) none age =
    inl (refl, λ k due. let (named, (m, b, limited, aged, over)) = due in none-some limited)
IsDue-cases (some name) (some l) none =
    inl (refl, λ k due. let (named, (m, b, limited, aged, over)) = due in none-some aged)
IsDue-cases (some name) (some l) (some a) = elim (Bool-cases (leb l a)) [
  | inl e ↦ inr (name, rw e refl, (refl, (l, a, refl, refl, ground arith)))
  | inr e ↦ inl (
    rw e refl,
    λ k due.
        let (named, (m, b, limited, aged, over)) = due in
        let same_l : l ≡ m = some-injective limited in
        let same_a : a ≡ b = some-injective aged in ground arith,
  )
]

-- the owners of a route: the owner, and who it escalates to if that is due
pub Routes : OwnershipTable → Option OwnershipRule → Option ℕ → RoutingResult → Type 0
Routes t rule age r =
    (o : Owner) × (owner_of t.owners (routed_name t rule) ≡ some o)
    × (o.name ≡ routed_name t rule)
    × (r.matched_rule ≡ rule_name rule)
    × (((r.owners ≡ o ∷ [])
          × (r.escalated ≡ false)
          × ((name : String) → ¬ IsDue o.escalate_to o.escalate_after age name))
        ⊎ ((name : String) × (other : Owner) × IsDue o.escalate_to o.escalate_after age name
            × (owner_of t.owners name ≡ some other)
            × (r.owners ≡ o ∷ other ∷ [])
            × (r.escalated ≡ true)))

rule_owner-routed :
    (t : OwnershipTable) (rule : Option OwnershipRule)
    → rule_owner t rule ≡ owner_of t.owners (routed_name t rule)
rule_owner-routed t none = refl
rule_owner-routed t (some r) = refl

-- the name that a finding is routed to is declared
routed-declared :
    (t : OwnershipTable) (device : String) (role finding : Option String)
    → table_is_valid t ≡ true
    → is_declared t.owners (routed_name t (matching t device role finding)) ≡ true
unfolding table_is_valid
routed-declared t device role finding valid = elim (Option-cases (matching t device role finding)) [
  | inl e ↦ rw e (ground arith)
  | inr (r, e) ↦ rw e (
      find_first-all (λ x. matches x device role finding) (λ x. is_declared t.owners x.owner)
        t.rules (ground arith) e)
]

due_to :
    (to : Option String) (limit age : Option ℕ) {name : String}
    → IsDue to limit age name
    → to ≡ some name
unfolding IsDue
due_to to limit age due = due.0

with_escalation-known :
    (owners : List Owner) (o : Owner) (rule : Option String) (name : String) {other : Owner}
    → owner_of owners name ≡ some other
    → with_escalation owners o rule (some name)
      ≡ some record { owners = o ∷ other ∷ []; matched_rule = rule; escalated = true }
with_escalation-known owners o rule name e = rw (e, with_escalation) refl

-- In a valid table every finding has a route: to the owner that the first rule matching it
-- names, to the default owner where none matches, and also to the one whom that owner escalates to,
-- exactly if the age of the finding is known and has reached the owner's limit. So no route is empty.
pub resolve_ownership-Routes :
    (t : OwnershipTable) (device : String) (role finding : Option String) (age : Option ℕ)
    → table_is_valid t ≡ true
    → (r : RoutingResult) × (resolve_ownership t device role finding age ≡ some r)
      × Routes t (matching t device role finding) age r
unfolding resolve_ownership table_is_valid Routes
resolve_ownership-Routes t device role finding age valid =
    let rule = matching t device role finding in
    let (o, found, named) =
      owner_of-declared t.owners (routed_name t rule)
        (routed-declared t device role finding valid) in
    let owned = rule_owner-routed t rule ∙ found in
    elim (IsDue-cases o.escalate_to o.escalate_after age) [
      | inl (early, never) ↦ (
        record { owners = o ∷ []; matched_rule = rule_name rule; escalated = false },
        rw (owned, early, resolve_ownership) refl,
        (o, found, named, refl, inl (refl, refl, never)),
      )
      | inr (name, late, due) ↦
          let declared =
            owner_of-all (λ x. escalates_inside t.owners x.escalate_to) t.owners
              (routed_name t rule) (ground arith) found in
          let (other, known, called) = owner_of-declared t.owners name (
            sym (ap (escalates_inside t.owners) (due_to o.escalate_to o.escalate_after age due))
            ∙ declared) in
          (
            record { owners = o ∷ other ∷ []; matched_rule = rule_name rule; escalated = true },
            rw (owned, late, resolve_ownership)
                (with_escalation-known t.owners o (rule_name rule) name known),
            (o, found, named, refl, inr (name, other, due, known, refl, refl)),
          )
    ]
