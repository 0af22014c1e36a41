-- ===== src/Health/Rules.antt =====
-- checks.py: what the health rules read, of a device's evidence and of its inventory entry. The messages
-- of findings are left out, and so is the counter of verdicts in metrics.py.
pub mod Table
pub mod Evaluate
pub mod Below
pub mod Conditions
pub mod Sections
pub mod Each
pub mod Counted
pub mod Graded
use ai_ops.Prelude.{
  ℕ, suc, ◌+◌, String, str_append, Bool, true, false, not, ◌&&◌, ◌||◌, Option, none, some, List, [],
  ◌∷◌, ◌++◌, str_eq, opt_str_eq, is_empty, length, any, keep, map, leb, ltb, ◌==◌, if◌then◌else◌,
}
use ai_ops.Health.{Severity, info, warning, critical}
use ai_ops.Checks.{is_nil}

pub data Role : Type 0 where
  core edge route_reflector : Role

pub record Expected : Type 0 where
  pub isis_adjacencies : Option ℕ
  pub bgp_peers : Option ℕ

pub record Device : Type 0 where
  pub name : String
  pub role : Role
  pub platform : Option String
  pub expected : Option Expected

-- the four intents of `_HEALTH_INTENTS`
pub data Intent : Type 0 where
  isis_intent bgp_intent interfaces_intent sr_intent : Intent

pub data SectionStatus : Type 0 where
  success error unsupported : SectionStatus

pub data ParseStatus : Type 0 where
  parse_ok parse_unavailable parse_failed not_parsed : ParseStatus

-- a section of the evidence, with the records of its kind
pub record Section (R : Type 0) : Type 0 where
  pub status : SectionStatus
  pub parse_status : ParseStatus
  pub records : List R

pub record IsisRecord : Type 0 where
  pub system_id : Option String
  pub state : Option String

pub record BgpRecord : Type 0 where
  pub neighbor : Option String
  pub session_state : Option String
  pub prefixes_received : Option ℕ

pub record InterfaceRecord : Type 0 where
  pub interface : Option String
  pub admin_state : Option String
  pub line_protocol : Option String

pub record PolicyRecord : Type 0 where
  pub policy : Option String
  pub operational_state : Option String

-- a device's evidence; `bgp_active` is the `active` of the BGP section's meta
pub record Evidence : Type 0 where
  pub platform : Option String
  pub isis : Option (Section IsisRecord)
  pub bgp : Option (Section BgpRecord)
  pub bgp_active : Option Bool
  pub interfaces : Option (Section InterfaceRecord)
  pub sr : Option (Section PolicyRecord)

pub record RuleContext : Type 0 where
  pub device : Device
  pub isis_ok : Bool
  pub isis_records : List IsisRecord
  pub bgp_ok : Bool
  pub bgp_records : List BgpRecord
  pub bgp_active : Option Bool
  pub interfaces_ok : Bool
  pub interface_records : List InterfaceRecord
  pub sr_ok : Bool
  pub sr_records : List PolicyRecord

abbrev pub is_parsed : ParseStatus → Bool
is_parsed parse_ok = true
is_parsed _ = false

-- `_intent_records`: the records where the section parsed
abbrev pub intent_ok : {R : Type 0} → Option (Section R) → Bool
intent_ok none = false
intent_ok (some s) = is_parsed s.parse_status

abbrev pub intent_records : {R : Type 0} → Option (Section R) → List R
intent_records none = []
intent_records (some s) = if is_parsed s.parse_status then s.records else []

-- `UNEVAL_UNSUPPORTED`, `UNEVAL_COLLECTION_FAILED`, `UNEVAL_PARSE_FAILED`
pub data Reason : Type 0 where
  not_supported collection_failed unparsed : Reason

abbrev pub parse_reason : ParseStatus → Option Reason
parse_reason parse_ok = none
parse_reason parse_unavailable = some not_supported
parse_reason _ = some unparsed

abbrev pub section_reason : SectionStatus → ParseStatus → Option Reason
section_reason success p = parse_reason p
section_reason unsupported p = some not_supported
section_reason error p = some collection_failed

-- `_uneval_reason`
abbrev pub uneval_reason : {R : Type 0} → Option (Section R) → Option Reason
uneval_reason none = some collection_failed
uneval_reason (some s) = section_reason s.status s.parse_status

unfoldable pub build_context : Evidence → Device → RuleContext
build_context e device = record {
  device = device;
  isis_ok = intent_ok e.isis;
  isis_records = intent_records e.isis;
  bgp_ok = intent_ok e.bgp;
  bgp_records = intent_records e.bgp;
  bgp_active = if intent_ok e.bgp then e.bgp_active else none;
  interfaces_ok = intent_ok e.interfaces;
  interface_records = intent_records e.interfaces;
  sr_ok = intent_ok e.sr;
  sr_records = intent_records e.sr;
}
