-- ===== src/Descent/Finding.antt =====
-- descent.py: the one finding that the outcomes of a walk come to.
use ai_ops.Prelude.{
  ℕ, zero, suc, String, Bool, false, ◌&&◌, Option, none, some, List, [], ◌∷◌, str_eq, ◌==◌, ltb,
  if◌then◌else◌, length, keep, any, last?, init,
}
use ai_ops.Checks.{result_eq, is_healthy, is_broken, is_unevaluated}
use ai_ops.Flows.{Rung, Flow}
use ai_ops.Coherence.{Coherence, refuses}
use ai_ops.Descent.{RungOutcome}

-- the terminal findings of flows.py, or the finding of the rung with this place in the ladder
pub data Finding : Type 0 where
  undetermined temporally_incoherent all_layers_healthy no_fault_on_path cause_not_localised :
      Finding
  of_rung : ℕ → Finding

unfoldable pub outcome_eq : RungOutcome → RungOutcome → Bool
unfolding result_eq
outcome_eq a b = str_eq a.rung b.rung && str_eq a.device b.device && result_eq a.result b.result

-- `outcomes.index(o)` of an outcome that is there
unfoldable pub index : RungOutcome → List RungOutcome → ℕ
unfolding outcome_eq
index o [] = 0
index o (x ∷ xs) = let rest = index o xs in if outcome_eq x o then 0 else suc rest

abbrev pub unread : RungOutcome → Bool
unread o = is_unevaluated o.result.status

abbrev pub down : RungOutcome → Bool
down o = is_broken o.result.status

abbrev pub up : RungOutcome → Bool
up o = is_healthy o.result.status

abbrev pub refused_by : Option Coherence → Bool
refused_by none = false
refused_by (some c) = refuses c

-- `outcomes[0].status == HEALTHY`
abbrev pub symptom_up : List RungOutcome → Bool
symptom_up [] = false
symptom_up (o ∷ os) = up o

abbrev cause : List RungOutcome → RungOutcome → Finding
unfolding index
cause outcomes lowest =
    let i = index lowest outcomes in
    if (i == 0) && ltb 1 (length outcomes) then cause_not_localised else of_rung i

-- `_finding_for`
unfoldable pub finding_for : List RungOutcome → Option Coherence → Finding
unfolding refuses index
finding_for outcomes coherence =
    if any unread outcomes
    then undetermined
    else if refused_by coherence
    then temporally_incoherent
    else elim (last? (keep down outcomes)) [
      | none ↦ all_layers_healthy
      | some lowest ↦ if symptom_up outcomes then no_fault_on_path else cause outcomes lowest
    ]

abbrev pub nth_finding : ℕ → List Rung → Option String
nth_finding n [] = none
nth_finding zero (r ∷ rs) = some r.finding
nth_finding (suc n) (r ∷ rs) = nth_finding n rs

-- the text of the finding; `none` for the `IndexError` of `flow.descent[i]`
unfoldable pub finding_text : Flow → Finding → Option String
finding_text flow undetermined = some "undetermined"
finding_text flow temporally_incoherent = some "temporally_incoherent"
finding_text flow all_layers_healthy = some "all_layers_healthy"
finding_text flow no_fault_on_path = some "no_fault_on_path"
finding_text flow cause_not_localised = some "cause_not_localised"
finding_text flow (of_rung i) = nth_finding i flow.descent

-- `DescentResult.cause`: the lowest broken rung
unfoldable pub lowest_broken : List RungOutcome → Option RungOutcome
lowest_broken outcomes = last? (keep down outcomes)

-- `DescentResult.causal_chain`: the broken rungs above it
unfoldable pub causal_chain : List RungOutcome → List RungOutcome
causal_chain outcomes = init (keep down outcomes)
