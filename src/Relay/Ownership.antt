-- ===== src/Relay/Ownership.antt =====
-- ownership.py: who owns a finding. Ages are in microseconds.
use ai_ops.Prelude.{
  ℕ, String, Bool, true, false, not, ◌&&◌, Option, none, some, List, [], ◌∷◌, all, any, find_first,
  str_eq, opt_str_eq, leb, ltb, if◌then◌else◌,
}

pub record Owner : Type 0 where
  pub name : String
  pub channel : String
  pub escalate_to : Option String
  pub escalate_after : Option ℕ

-- `Owner.__post_init__`; false where it raises
unfoldable pub owner_is_valid : Owner → Bool
owner_is_valid o = elim o.escalate_to [
  | none ↦ elim o.escalate_after [ none ↦ true | some t ↦ false ]
  | some who ↦ elim o.escalate_after [ none ↦ false | some t ↦ ltb 0 t ]
]

pub record OwnershipRule : Type 0 where
  pub name : String
  pub owner : String
  pub device : Option String
  pub role : Option String
  pub finding : Option String

-- whether a pinned field differs from the finding's
abbrev pub differs : Option String → Option String → Bool
differs none value = false
differs (some pinned) value = not (opt_str_eq (some pinned) value)

-- `OwnershipRule.matches`
unfoldable pub matches : OwnershipRule → String → Option String → Option String → Bool
matches rule device role finding =
    if differs rule.device (some device)
    then false
    else if differs rule.role role
    then false
    else not (differs rule.finding finding)

-- the owners are a dictionary by name
pub record OwnershipTable : Type 0 where
  pub rules : List OwnershipRule
  pub owners : List Owner
  pub default_owner : String

-- `table.owners[name]`, none where it is a `KeyError`
unfoldable pub owner_of : List Owner → String → Option Owner
owner_of [] name = none
owner_of (o ∷ os) name = let rest = owner_of os name in if str_eq o.name name then some o else rest

abbrev pub is_declared : List Owner → String → Bool
is_declared owners name = any (λ (o : Owner). str_eq o.name name) owners

abbrev pub escalates_inside : List Owner → Option String → Bool
escalates_inside owners none = true
escalates_inside owners (some name) = is_declared owners name

-- `OwnershipTable.__post_init__`; false where it raises
unfoldable pub table_is_valid : OwnershipTable → Bool
table_is_valid t =
    is_declared t.owners t.default_owner
    && all (λ (r : OwnershipRule). is_declared t.owners r.owner) t.rules
    && all (λ (o : Owner). escalates_inside t.owners o.escalate_to) t.owners

unfoldable pub default_table : OwnershipTable
default_table = record {
  rules = [];
  owners =
      record {
        name = "default";
        channel = "notifier-default";
        escalate_to = none;
        escalate_after = none;
      }
      ∷ [];
  default_owner = "default";
}

pub record RoutingResult : Type 0 where
  pub owners : List Owner
  pub matched_rule : Option String
  pub escalated : Bool

abbrev pub rule_owner : OwnershipTable → Option OwnershipRule → Option Owner
rule_owner t none = owner_of t.owners t.default_owner
rule_owner t (some rule) = owner_of t.owners rule.owner

abbrev pub rule_name : Option OwnershipRule → Option String
rule_name none = none
rule_name (some rule) = some rule.name

abbrev pub is_due : Option ℕ → Option ℕ → Bool
is_due none age = false
is_due (some after) none = false
is_due (some after) (some age) = leb after age

-- the owner to escalate to, if the finding is old enough
abbrev pub escalation : Owner → Option ℕ → Option String
escalation o age = if is_due o.escalate_after age then o.escalate_to else none

abbrev pub with_escalation :
    List Owner → Owner → Option String → Option String → Option RoutingResult
with_escalation owners owner rule none =
    some record { owners = owner ∷ []; matched_rule = rule; escalated = false }
with_escalation owners owner rule (some name) = elim (owner_of owners name) [
  | none ↦ none
  | some other ↦ some record { owners = owner ∷ other ∷ []; matched_rule = rule; escalated = true }
]

abbrev pub matching : OwnershipTable → String → Option String → Option String → Option OwnershipRule
matching t device role finding = find_first (λ r. matches r device role finding) t.rules

unfoldable pub resolve_ownership :
    OwnershipTable → String → Option String → Option String → Option ℕ → Option RoutingResult
unfolding matches owner_of
resolve_ownership t device role finding age =
    let rule = matching t device role finding in
    elim (rule_owner t rule) [
      | none ↦ none
      | some owner ↦ with_escalation t.owners owner (rule_name rule) (escalation owner age)
    ]
