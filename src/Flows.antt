-- ===== src/Flows.antt =====
-- flows.py: a rung of a ladder, and a flow as the ladder of one object type. What a rung collects
-- is read by the collector alone, so `collect` is left out.
use ai_ops.Prelude.{
  String, Bool, true, false, not, ◌&&◌, ◌||◌, Option, none, some, List, any, all, str_eq,
}
use ai_ops.Checks.{CheckResult}
use ai_ops.Evidence.{Evidence}

pub data DeviceScope : Type 0 where
  local_device subject_device path : DeviceScope

pub data SubjectRule : Type 0 where
  as_is host_prefix device_wide each_path_interface each_physical_interface : SubjectRule

pub data Aggregation : Type 0 where
  all_healthy any_healthy : Aggregation

unfoldable pub is_fanout : SubjectRule → Bool
is_fanout each_physical_interface = true
is_fanout each_path_interface = true
is_fanout _ = false

pub record Rung : Type 0 where
  pub name : String
  pub check : Evidence → Option String → CheckResult
  pub finding : String
  pub device_scope : DeviceScope
  pub subject_rule : SubjectRule
  pub aggregation : Option Aggregation

abbrev is_path : DeviceScope → Bool
is_path path = true
is_path _ = false

unfoldable pub evaluates_a_set : Rung → Bool
unfolding is_fanout
evaluates_a_set r = is_path r.device_scope || is_fanout r.subject_rule

abbrev declares : Option Aggregation → Bool
declares none = false
declares (some a) = true

-- `Rung.__post_init__`; false where it raises
unfoldable pub rung_is_valid : Rung → Bool
unfolding evaluates_a_set
rung_is_valid r =
    (evaluates_a_set r && declares r.aggregation)
    || (not (evaluates_a_set r) && not (declares r.aggregation))

pub record Flow : Type 0 where
  pub object_type : String
  pub descent : List Rung
  pub findings : List String

-- `Flow.__post_init__`; false where it raises
unfoldable pub flow_is_valid : Flow → Bool
flow_is_valid f = all (λ (r : Rung). any (λ x. str_eq x r.finding) f.findings) f.descent
