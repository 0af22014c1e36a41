-- ===== src/Evidence.antt =====
-- The collected evidence of one device, as the descent reads it: sections by key, each with the
-- records that its parser found. A record is a dict of texts; the `found` entry of a section's
-- `meta` is kept apart.
use ai_ops.Prelude.{
  String, Bool, false, Option, none, some, List, [], ◌∷◌, str_eq, if◌then◌else◌, map, keep, not,
}

abbrev pub Record : Type 0
Record = List (String × String)

pub record Parsed : Type 0 where
  pub records : List Record
  pub found : Bool
  -- the other entries of `meta`
  pub info : Record

-- one envelope: its `status`, and `parse_status` and `parsed` of its `data`
pub record Section : Type 0 where
  pub status : String
  pub parse_status : String
  pub parsed : Option Parsed

abbrev pub Evidence : Type 0
Evidence = List (String × Section)

-- `record.get(key, "")`
unfoldable pub entry : String → Record → String
entry k [] = ""
entry k ((j, v) ∷ r) = if str_eq j k then v else entry k r

-- `evidence.get(key)`
unfoldable pub section : String → Evidence → Option Section
section k [] = none
section k ((j, s) ∷ e) = if str_eq j k then some s else section k e

abbrev parsed_or_empty : Option Parsed → Parsed
parsed_or_empty none = record { records = []; found = false; info = [] }
parsed_or_empty (some p) = p

abbrev section_parsed : Option Section → Parsed
section_parsed none = record { records = []; found = false; info = [] }
section_parsed (some s) = parsed_or_empty s.parsed

-- the parse of a section, empty where the section or the parse is missing
unfoldable pub parsed_of : String → Evidence → Parsed
unfolding section
parsed_of k e = section_parsed (section k e)

-- `[r.get("interface", "") for r in records]`
unfoldable pub interfaces_of : List Record → List String
unfolding entry
interfaces_of = map (entry "interface")

-- the same, without the records that name no interface
unfoldable pub named_interfaces : List Record → List String
unfolding interfaces_of
named_interfaces rs = keep (λ n. not (str_eq n "")) (interfaces_of rs)
