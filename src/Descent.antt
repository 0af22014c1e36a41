-- ===== src/Descent.antt =====
-- descent.py: which devices and subjects a rung is about, and how its members' verdicts combine.
-- Logging is left out. `ValueError` of `CheckResult` is `none`.
pub mod Finding
pub mod Walk
pub mod Aggregate
pub mod Localise
pub mod Lowest
pub mod Total
pub mod Report
use ai_ops.Prelude.{
  ℕ, zero, suc, String, Bool, true, false, not, ◌&&◌, ◌||◌, Option, none, some, List, [], ◌∷◌, ◌++◌,
  map, str_eq, str_append, ◌==◌, leb, ltb, if◌then◌else◌, length, keep, count_if, any, all,
  find_first, last?, init, decimal, join_texts, quote,
}
use ai_ops.Checks.{
  Status, healthy, broken, unevaluated, CheckResult, make_result, result_eq, is_healthy, is_broken,
  is_unevaluated, is_nil,
}
use ai_ops.Evidence.{Evidence, Section, Parsed, parsed_of, section, interfaces_of, named_interfaces}
use ai_ops.Interfaces.{physical_members, same_interface}
use ai_ops.Flows.{
  DeviceScope, local_device, subject_device, path, SubjectRule, as_is, host_prefix, device_wide,
  each_path_interface, each_physical_interface, Aggregation, all_healthy, any_healthy, Rung, Flow,
}
use ai_ops.Coherence.{Coherence, refuses}

pub record RungOutcome : Type 0 where
  pub rung : String
  pub device : String
  pub result : CheckResult

abbrev pub outcome_status : RungOutcome → Status
outcome_status o = o.result.status

-- What the resolver gives: one device, several, or a `ValueError`.
pub data Resolved : Type 0 where
  one : String → Resolved
  several : List String → Resolved
  refused : String → Resolved

pub data Devices : Type 0 where
  devices : List String → Devices
  unresolved : String → Devices

abbrev from_resolver : String → Option (String → Resolved) → Rung → Devices
from_resolver subject none rung = unresolved (str_append "no resolver for rung " (quote rung.name))
from_resolver subject (some resolve) rung = elim (resolve subject) [
  | one d ↦ devices (d ∷ [])
  | several ds ↦
      if is_nil ds
      then unresolved (str_append "resolver returned no devices for subject " (quote subject))
      else devices ds
  | refused why ↦ unresolved why
]

abbrev is_local : DeviceScope → Bool
is_local local_device = true
is_local _ = false

unfoldable pub resolve_devices : Rung → String → String → Option (String → Resolved) → Devices
resolve_devices rung device subject resolver =
    if is_local rung.device_scope
    then devices (device ∷ [])
    else from_resolver subject resolver rung

-- `_physical_interfaces`
unfoldable pub physical_interfaces : Evidence → List String
unfolding parsed_of interfaces_of physical_members
physical_interfaces evidence =
    (physical_members (interfaces_of (parsed_of "interfaces" evidence).records)).0

-- one name of the route: the device's own spelling joins the members once
abbrev add_member : Option String → String → List String × List String → List String × List String
add_member none name (members, missing) = (members, missing ++ name ∷ [])
add_member (some own) name (members, missing) =
    if any (str_eq own) members then (members, missing) else (members ++ own ∷ [], missing)

unfoldable pub resolve_members :
    List String → List String → List String × List String → List String × List String
unfolding same_interface
resolve_members own [] acc = acc
resolve_members own (name ∷ names) acc =
    resolve_members own names (add_member (find_first (λ o. same_interface o name) own) name acc)

abbrev route_of : Option Section → Parsed
route_of none = record { records = []; found = false; info = [] }
route_of (some s) = elim s.parsed [
  | none ↦ record { records = []; found = false; info = [] }
  | some p ↦ p
]

unfoldable pub path_interfaces : Evidence → Option String → List String × List String
unfolding section parsed_of named_interfaces resolve_members
path_interfaces evidence none = ([], [])
path_interfaces evidence (some prefix) =
    if str_eq prefix ""
    then ([], [])
    else let route = parsed_of (str_append "route:" prefix) evidence in
      if route.found
      then resolve_members (named_interfaces (parsed_of "interfaces" evidence).records)
          (named_interfaces route.records) ([], [])
      else ([], [])

abbrev path_subjects : List String → Evidence → List (Option String) × Option Aggregation
path_subjects members evidence =
    if is_nil members
    then (map some (physical_interfaces evidence), some all_healthy)
    else (map some members, some any_healthy)

-- `_rung_subjects`: what the check is asked about, and how the answers combine
unfoldable pub rung_subjects :
    SubjectRule → String → Evidence → Option String → List (Option String) × Option Aggregation
unfolding physical_interfaces path_interfaces
rung_subjects as_is subject evidence origin = (some subject ∷ [], none)
rung_subjects host_prefix subject evidence origin = (some (str_append subject "/32") ∷ [], none)
rung_subjects device_wide subject evidence origin = (none ∷ [], none)
rung_subjects each_physical_interface subject evidence origin =
    (map some (physical_interfaces evidence), none)
rung_subjects each_path_interface subject evidence origin =
    path_subjects (path_interfaces evidence origin).0 evidence

abbrev pub flat_keys : List CheckResult → List String
flat_keys [] = []
flat_keys (r ∷ rs) = r.evidence_keys ++ flat_keys rs

abbrev reasons : List CheckResult → List String
reasons [] = []
reasons (r ∷ rs) =
    let rest = reasons rs in
    elim r.reason [ none ↦ rest | some t ↦ if str_eq t "" then rest else t ∷ rest ]

abbrev pub or_else : Option Aggregation → Option Aggregation → Option Aggregation
or_else none b = b
or_else (some a) b = some a

abbrev pub is_any : Option Aggregation → Bool
is_any (some any_healthy) = true
is_any _ = false

-- `"{n} of {m}" ++ what`
abbrev n_of_m : ℕ → ℕ → String → String
n_of_m n m what = str_append (decimal n) (str_append " of " (str_append (decimal m) what))

abbrev pub status_is : (Status → Bool) → CheckResult → Bool
status_is p r = p r.status

unfoldable pub unread_result : List CheckResult → Option String → CheckResult
unread_result results subject = record {
  status = unevaluated;
  reason = some (
      str_append
        (n_of_m (count_if (status_is is_unevaluated) results) (length results)
          " members could not be read: ")
        (join_texts "; " (reasons (keep (status_is is_unevaluated) results))));
  subject = subject;
  evidence_keys = flat_keys results;
  device_text = none;
}

unfoldable pub read_result : Bool → List CheckResult → Option String → CheckResult
read_result any_suffices results subject =
    let well = count_if (status_is is_healthy) results in
    record {
      status =
          if any_suffices
          then (if ltb 0 well then healthy else broken)
          else (if well == length results then healthy else broken);
      reason = some (
          n_of_m well (length results) (
            if any_suffices
            then " members healthy (any suffices)"
            else " members healthy (all required)"));
      subject = subject;
      evidence_keys = flat_keys results;
      device_text = none;
    }

unfoldable pub empty_result : Rung → CheckResult
empty_result rung = record {
  status = unevaluated;
  reason = some (
      str_append "rung " (
        str_append (quote rung.name)
          " resolved to no members; nothing was read, so nothing is known about it"));
  subject = none;
  evidence_keys = [];
  device_text = none;
}

-- `_aggregate`
unfoldable pub aggregate : Rung → List CheckResult → Option Aggregation → Option CheckResult
unfolding unread_result read_result empty_result make_result
aggregate rung [] how = make_result (empty_result rung)
aggregate rung (r ∷ []) how = some r
aggregate rung (r ∷ s ∷ rs) how =
    if any (status_is is_unevaluated) (r ∷ s ∷ rs)
    then make_result (unread_result (r ∷ s ∷ rs) r.subject)
    else make_result (read_result (is_any (or_else how rung.aggregation)) (r ∷ s ∷ rs) r.subject)
