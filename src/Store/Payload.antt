-- ===== src/Store/Payload.antt =====
-- event_identity.py: which fields of an event's payload may change under the same event id.
-- A payload is a JSON object, as the list of its fields with distinct names. A JSON value that is
-- neither null, a truth value, a natural number nor a text is held as its sorted-key JSON text.
use ai_ops.Prelude.{
  ℕ, String, Bool, true, false, not, ◌&&◌, ◌||◌, List, [], ◌∷◌, str_eq, ◌==◌, if◌then◌else◌, any,
  all,
}
use ai_ops.Result.{Result, ok, err, identity_differs}

pub data Json : Type 0 where
  null : Json
  flag : Bool → Json
  int : ℕ → Json
  text : String → Json
  other : String → Json

abbrev pub Payload : Type 0
Payload = List (String × Json)

abbrev bool_eq : Bool → Bool → Bool
bool_eq true b = b
bool_eq false b = not b

unfoldable pub json_eq : Json → Json → Bool
json_eq null null = true
json_eq (flag a) (flag b) = bool_eq a b
json_eq (int a) (int b) = a == b
json_eq (text a) (text b) = str_eq a b
json_eq (other a) (other b) = str_eq a b
json_eq _ _ = false

-- `payload.get(key)`
unfoldable pub field : String → Payload → Json
field k [] = null
field k ((j, v) ∷ p) = if str_eq j k then v else field k p

unfoldable pub has_field : String → Payload → Bool
has_field k [] = false
has_field k ((j, v) ∷ p) = str_eq j k || has_field k p

abbrev is_text : Json → Bool
is_text (text s) = true
is_text _ = false

unfoldable pub is_syslog : Payload → Bool
unfolding field json_eq
is_syslog p = json_eq (field "schema_version" p) (int 2) && is_text (field "source_kind" p)

abbrev syslog_mutable : List String
syslog_mutable = "received_at" ∷ []

abbrev campaign_mutable : List String
campaign_mutable =
    "phase" ∷ "outcome" ∷ "rollback_deadline" ∷ "ticket_id" ∷ "incident_id" ∷ "event_id" ∷ []

-- `set(existing) == set(proposed)`
unfoldable pub same_keys : Payload → Payload → Bool
unfolding has_field
same_keys a b = all (λ f. has_field f.0 b) a && all (λ f. has_field f.0 a) b

-- `_validate_keys`; false where it raises
unfoldable pub validate_keys : Payload → Payload → List String → Bool
unfolding same_keys field json_eq
validate_keys existing proposed changeable =
    same_keys existing proposed
    && all (λ f. any (str_eq f.0) changeable || json_eq (field f.0 existing) (field f.0 proposed))
        existing

-- `existing == proposed`, the equality of two dicts
unfoldable pub payload_eq : Payload → Payload → Bool
unfolding same_keys field json_eq
payload_eq a b = same_keys a b && all (λ f. json_eq (field f.0 a) (field f.0 b)) a

unfoldable pub validate_payload_update : Payload → Payload → Result (Unit {0})
unfolding is_syslog validate_keys payload_eq
validate_payload_update existing proposed =
    if is_syslog existing && is_syslog proposed
    then (if validate_keys existing proposed syslog_mutable then ok tt else err identity_differs)
    else if json_eq (field "kind" existing) (field "kind" proposed)
        && json_eq (field "kind" proposed) (text "campaign_phase")
    then (if validate_keys existing proposed campaign_mutable then ok tt else err identity_differs)
    else if payload_eq existing proposed
    then ok tt
    else err identity_differs

-- `known_kind` of `create_or_get`
unfoldable pub known_kind : Payload → Bool
unfolding is_syslog
known_kind p = is_syslog p || json_eq (field "kind" p) (text "campaign_phase")
