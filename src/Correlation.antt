-- ===== src/Correlation.antt =====
-- incident_correlation.py: diagnoses that share a cause, a subject or a device; and
-- temporal_correlation.py, in Correlation/Change. The texts of reasons are left out.
pub mod Groups
pub mod Change
pub mod Causes
use ai_ops.Prelude.{
  ℕ, String, Bool, true, false, not, ◌&&◌, Option, none, some, List, [], ◌∷◌, ◌++◌, map, str_eq,
  eq_iff, leb, keep, length, if◌then◌else◌,
}
use Groups.{group_by}

pub record DiagnosisRef : Type 0 where
  pub id : String
  pub device : String
  pub subject : String
  pub flow : String
  pub finding : String
  pub cause_rung : Option String
  pub cause_device : Option String
  pub cause_subject : Option String
  pub recorded_at : Option String
  pub run_id : Option String

pub data Basis : Type 0 where
  same_cause same_subject same_device : Basis

-- the key is the tuple of the source, as a list
pub record Incident : Type 0 where
  pub basis : Basis
  pub key : List String
  pub members : List DiagnosisRef

abbrev pub is_some : Option String → Bool
is_some none = false
is_some (some s) = true

-- `d.cause_rung is None or d.cause_device is None`, which is skipped, is false
abbrev pub has_cause : DiagnosisRef → Bool
has_cause d = is_some d.cause_rung && is_some d.cause_device

-- the key of a diagnosis that is grouped by its cause
unfoldable pub cause_key : DiagnosisRef → Option (List String)
cause_key d = elim d.cause_rung [
  | none ↦ none
  | some rung ↦ elim d.cause_device [
    | none ↦ none
    | some device ↦ elim d.cause_subject [
      | none ↦ none
      | some subject ↦ if is_some d.run_id then some (device ∷ rung ∷ subject ∷ []) else none
    ]
  ]
]

abbrev pub is_incident : List String × List DiagnosisRef → Bool
is_incident group = leb 2 (length group.1)

abbrev pub incident_of : Basis → List String × List DiagnosisRef → Incident
incident_of basis group = record { basis = basis; key = group.0; members = group.1 }

-- the groups of two and more
abbrev pub incidents_of : Basis → List (List String × List DiagnosisRef) → List Incident
incidents_of basis groups = map (incident_of basis) (keep is_incident groups)

-- the incidents, and the diagnoses left out for a missing subject and for a missing run
unfoldable pub correlate_by_cause :
    List DiagnosisRef → List Incident × List DiagnosisRef × List DiagnosisRef
unfolding cause_key group_by
correlate_by_cause diagnoses = (
  incidents_of same_cause (group_by cause_key [] diagnoses),
  keep (λ d. has_cause d && not (is_some d.cause_subject)) diagnoses,
  keep (λ d. has_cause d && not (is_some d.run_id)) diagnoses,
)

unfoldable pub correlate_by_subject : List DiagnosisRef → List Incident
unfolding group_by
correlate_by_subject diagnoses =
    incidents_of same_subject (group_by (λ (d : DiagnosisRef). some (d.subject ∷ [])) [] diagnoses)

unfoldable pub correlate_by_device : List DiagnosisRef → List Incident
unfolding group_by
correlate_by_device diagnoses =
    incidents_of same_device (group_by (λ (d : DiagnosisRef). some (d.device ∷ [])) [] diagnoses)

pub record CorrelationResult : Type 0 where
  pub incidents : List Incident
  pub clusters : List Incident
  pub excluded_for_missing_subject : List DiagnosisRef
  pub excluded_for_missing_run_id : List DiagnosisRef

unfoldable pub correlate : List DiagnosisRef → CorrelationResult
unfolding correlate_by_cause correlate_by_subject correlate_by_device
correlate diagnoses =
    let (incidents, without_subject, without_run) = correlate_by_cause diagnoses in
    record {
      incidents = incidents;
      clusters = correlate_by_subject diagnoses ++ correlate_by_device diagnoses;
      excluded_for_missing_subject = without_subject;
      excluded_for_missing_run_id = without_run;
    }
