-- ===== src/Correlation/Change.antt =====
-- temporal_correlation.py: which change an event follows in time. Times and windows are in
-- microseconds.
use ai_ops.Prelude.{
  ℕ, ◌-◌, String, Bool, not, ◌&&◌, ◌||◌, Option, none, some, List, [], ◌∷◌, any, keep, str_eq, leb,
  ltb, if◌then◌else◌,
}

pub data CorrelationClass : Type 0 where
  preceding_change concurrent_event recurring_episode no_match_complete_coverage coverage_limited
        temporally_incoherent :
      CorrelationClass

pub record EventOnset : Type 0 where
  pub event_id : String
  pub observed_at : ℕ
  pub coverage_complete : Bool
  pub clock_quality : String

pub record ChangeEvidence : Type 0 where
  pub change_id : String
  pub observed_at : ℕ
  pub source : String
  pub coverage_complete : Bool

pub record CorrelationResult : Type 0 where
  pub classification : CorrelationClass
  pub change_id : Option String
  pub delta : Option ℕ
  pub limitation : Option String

-- `0 <= delta <= preceding_window_seconds`
abbrev pub is_candidate : EventOnset → ℕ → ChangeEvidence → Bool
is_candidate onset preceding c =
    leb c.observed_at onset.observed_at && leb (onset.observed_at - c.observed_at) preceding

abbrev pub delta_of : EventOnset → ChangeEvidence → ℕ
delta_of onset c = onset.observed_at - c.observed_at

-- `min(candidates, key=...)`: the first of the nearest
unfoldable pub nearest : EventOnset → ChangeEvidence → List ChangeEvidence → ChangeEvidence
nearest onset best [] = best
nearest onset best (c ∷ cs) =
    nearest onset (if ltb (delta_of onset c) (delta_of onset best) then c else best) cs

abbrev pub limited : CorrelationClass → Option String → CorrelationResult
limited class why = record {
  classification = class;
  change_id = none;
  delta = none;
  limitation = why;
}

abbrev pub classify : EventOnset → ℕ → List ChangeEvidence → CorrelationResult
classify onset concurrent [] = limited no_match_complete_coverage none
classify onset concurrent (c ∷ cs) =
    let best = nearest onset c cs in
    record {
      classification =
          if leb (delta_of onset best) concurrent then concurrent_event else preceding_change;
      change_id = some best.change_id;
      delta = some (delta_of onset best);
      limitation = none;
    }

unfoldable pub correlate_change : EventOnset → List ChangeEvidence → ℕ → ℕ → CorrelationResult
unfolding nearest
correlate_change onset changes preceding concurrent =
    if not (str_eq onset.clock_quality "trusted")
    then limited temporally_incoherent (some "event clock quality is not trusted")
    else if not onset.coverage_complete
        || any (λ (c : ChangeEvidence). not c.coverage_complete) changes
    then limited coverage_limited (some "event or change coverage is incomplete")
    else classify onset concurrent (keep (is_candidate onset preceding) changes)
