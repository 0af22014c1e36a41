-- ===== src/Health/Parse.antt =====
-- health.py: `parse_silences`, from loaded YAML data to silences. `from_iso` stands for
-- `datetime.fromisoformat` of Python's library, none where it raises.
pub mod Table
use Prim.Native.Char.{code}
use ai_ops.Prelude.{
  ℕ, suc, String, str_append, Bool, true, false, not, ◌&&◌, ◌||◌, Option, none, some, List, [], ◌∷◌,
  ◌++◌, str_eq, leb, ltb, ◌==◌, if◌then◌else◌, any, is_blank, is_empty, strip, decimal,
}
use ai_ops.Result.{Moment, aware, naive}
use ai_ops.Health.{Silence}

-- a YAML value; `stamp` and `other` have what `str` gives of them
pub data Value : Type 0 where
  null : Value
  text : String → Value
  stamp : Moment → String → Value
  other : String → Value

abbrev pub Mapping : Type 0
Mapping = List (String × Value)

pub data Problem : Type 0 where
  not_a_list not_a_mapping no_reason no_creator no_expiry bad_timestamp no_timezone empty_window
        bad_field duplicate_id :
      Problem

-- the value, or the `SilenceError`
pub data Loaded {ℓ} (A : Type ℓ) : Type ℓ where
  loaded : A → Loaded A
  problem : Problem → Loaded A

module _ {ℓ κ} {Part : Type ℓ} {Whole : Type κ} where
  infixl 5 ◌>>=◌
  abbrev pub ◌>>=◌ : Loaded Part → (Part → Loaded Whole) → Loaded Whole
  problem p >>= next = problem p
  loaded part >>= next = next part

-- `entry.get(key)`
unfoldable pub value_of : String → Mapping → Value
value_of k [] = null
value_of k ((j, v) ∷ m) = if str_eq j k then v else value_of k m

abbrev has_key : String → Mapping → Bool
has_key k m = any (λ (e : String × Value). str_eq e.0 k) m

-- a final `Z` is `+00:00`
zulu : String → String
zulu String.[] = ""
zulu (String.◌∷◌ c s) =
    let rest = zulu s in if is_empty s && code c == 90 then "+00:00" else String.◌∷◌ c rest

abbrev zoned : Moment → Loaded ℕ
zoned naive = problem no_timezone
zoned (aware t) = loaded t

abbrev zoned_text : Option Moment → Loaded ℕ
zoned_text none = problem bad_timestamp
zoned_text (some m) = zoned m

-- `_parse_timestamp`
unfoldable pub parse_timestamp : (String → Option Moment) → Value → Loaded ℕ
unfolding zulu strip
parse_timestamp from_iso (stamp m s) = zoned m
parse_timestamp from_iso (text s) = zoned_text (from_iso (zulu (strip s)))
parse_timestamp from_iso _ = problem bad_timestamp

abbrev parse_start : (String → Option Moment) → Value → Loaded (Option ℕ)
unfolding parse_timestamp
parse_start from_iso null = loaded none
parse_start from_iso v = do t ← parse_timestamp from_iso v; loaded (some t)

-- a text that is not blank, without its outer white space
abbrev required_text : Problem → Value → Loaded String
unfolding is_blank strip
required_text p (text s) = if is_blank s then problem p else loaded (strip s)
required_text p _ = problem p

abbrev optional_text : Value → Loaded (Option String)
optional_text null = loaded none
optional_text (text s) = loaded (some s)
optional_text _ = problem bad_field

abbrev expiry_of : (String → Option Moment) → Bool → Value → Loaded ℕ
unfolding parse_timestamp
expiry_of from_iso false v = problem no_expiry
expiry_of from_iso true v = parse_timestamp from_iso v

-- `starts_at >= expires_at` is refused
abbrev pub before : Option ℕ → ℕ → Bool
before none expiry = true
before (some start) expiry = ltb start expiry

abbrev window_of : Option ℕ → ℕ → Loaded (Option ℕ)
window_of start expiry = if before start expiry then loaded start else problem empty_window

abbrev or_any : Option String → String
or_any none = "any"
or_any (some s) = if is_empty s then "any" else s

abbrev id_of : ℕ → Value → Option String → Option String → String
id_of index null device rule = str_append "silence-" (
    str_append (decimal index)
      (str_append "-" (str_append (or_any device) (str_append "-" (or_any rule)))))
id_of index (text s) device rule = s
id_of index (stamp m s) device rule = s
id_of index (other s) device rule = s

-- `silence_id in seen_ids`
abbrev pub is_seen : String → List String → Bool
is_seen id [] = false
is_seen id (x ∷ xs) = str_eq x id || is_seen id xs

abbrev new_id : List String → String → Loaded String
new_id seen id = if is_seen id seen then problem duplicate_id else loaded id

unfoldable pub parse_mapping : (String → Option Moment) → ℕ → List String → Mapping → Loaded Silence
unfolding parse_start required_text expiry_of decimal value_of
parse_mapping from_iso index seen m = do
  reason ← required_text no_reason (value_of "reason" m)
  created_by ← required_text no_creator (value_of "created_by" m)
  expires_at ← expiry_of from_iso (has_key "expires_at" m) (value_of "expires_at" m)
  start ← parse_start from_iso (value_of "starts_at" m)
  starts_at ← window_of start expires_at
  device ← optional_text (value_of "device" m)
  rule ← optional_text (value_of "rule" m)
  subject ← optional_text (value_of "subject" m)
  id ← new_id seen (id_of index (value_of "id" m) device rule)
  loaded (record {
    id = id;
    reason = reason;
    created_by = created_by;
    expires_at = expires_at;
    device = device;
    rule = rule;
    subject = subject;
    starts_at = starts_at;
  })

abbrev pub parse_entry :
    (String → Option Moment) → ℕ → List String → Option Mapping → Loaded Silence
parse_entry from_iso index seen none = problem not_a_mapping
parse_entry from_iso index seen (some m) = parse_mapping from_iso index seen m

-- the loop over the entries; an entry that is no mapping is none
unfoldable pub parse_entries :
    (String → Option Moment) → ℕ → List String → List (Option Mapping) → Loaded (List Silence)
parse_entries from_iso index seen [] = loaded []
parse_entries from_iso index seen (e ∷ es) = do
  s ← parse_entry from_iso index seen e
  rest ← parse_entries from_iso (suc index) (s.id ∷ seen) es
  loaded (s ∷ rest)

-- the top level is none where it is no list
unfoldable pub parse_silences :
    (String → Option Moment) → Option (List (Option Mapping)) → Loaded (List Silence)
unfolding parse_entries
parse_silences from_iso none = problem not_a_list
parse_silences from_iso (some entries) = parse_entries from_iso 0 [] entries
