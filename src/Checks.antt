-- ===== src/Checks.antt =====
-- checks.py: the three verdicts of a check, and the record that carries one.
use ai_ops.Prelude.{
  String, Bool, true, false, not, ◌&&◌, ◌||◌, Option, none, some, List, [], ◌∷◌, str_eq, opt_str_eq,
  any, if◌then◌else◌,
}

pub data Status : Type 0 where
  healthy broken unevaluated : Status

-- `CheckResult`
pub record CheckResult : Type 0 where
  pub status : Status
  pub reason : Option String
  pub subject : Option String
  pub evidence_keys : List String
  pub device_text : Option (List String)

abbrev pub is_healthy : Status → Bool
is_healthy healthy = true
is_healthy _ = false

abbrev pub is_broken : Status → Bool
is_broken broken = true
is_broken _ = false

abbrev pub is_unevaluated : Status → Bool
is_unevaluated unevaluated = true
is_unevaluated _ = false

abbrev pub is_nil {ℓ} : {A : Type ℓ} → List A → Bool
is_nil [] = true
is_nil (x ∷ xs) = false

abbrev quoted : Option (List String) → Bool
quoted none = true
quoted (some texts) = not (is_nil texts) && not (any (λ t. str_eq t "") texts)

-- `CheckResult.__post_init__`; false where it raises
unfoldable pub is_valid : CheckResult → Bool
is_valid r = (is_unevaluated r.status || not (is_nil r.evidence_keys)) && quoted r.device_text

-- the constructor: `none` where it raises
unfoldable pub make_result : CheckResult → Option CheckResult
unfolding is_valid
make_result r = if is_valid r then some r else none

unfoldable pub is_conclusive : CheckResult → Bool
is_conclusive r = not (is_unevaluated r.status)

abbrev pub texts_eq : List String → List String → Bool
texts_eq [] [] = true
texts_eq (a ∷ as') (b ∷ bs) = str_eq a b && texts_eq as' bs
texts_eq _ _ = false

abbrev pub opt_texts_eq : Option (List String) → Option (List String) → Bool
opt_texts_eq none none = true
opt_texts_eq (some a) (some b) = texts_eq a b
opt_texts_eq _ _ = false

abbrev pub status_eq : Status → Status → Bool
status_eq healthy healthy = true
status_eq broken broken = true
status_eq unevaluated unevaluated = true
status_eq _ _ = false

-- the equality of two frozen dataclass values
unfoldable pub result_eq : CheckResult → CheckResult → Bool
result_eq a b =
    status_eq a.status b.status
    && opt_str_eq a.reason b.reason
    && opt_str_eq a.subject b.subject
    && texts_eq a.evidence_keys b.evidence_keys
    && opt_texts_eq a.device_text b.device_text
