-- ===== src/Descent/Lowest.antt =====
-- descent.py: which finding `_finding_for` comes to, by where the lowest broken outcome is.
use ai_ops.Prelude.{
  suc, ◌≡◌, refl, sym, ap, ◌∙◌, Bool, true, false, not, ◌&&◌, ◌||◌, Option, some, List, [], ◌∷◌,
  ◌++◌, String, any, all, length, arith, str_eq, eq_iff, Bool-cases, inl, inr,
}
use ai_ops.Flows.{Rung, Flow}
use ai_ops.Coherence.{Coherence}
use ai_ops.Descent.{RungOutcome}
use ai_ops.Descent.Finding.{
  unread, up, down, refused_by, symptom_up, finding_for, finding_text, Finding, of_rung,
  cause_not_localised, nth_finding,
}
use ai_ops.Descent.Localise.{named, finding_for_lowest, finding_for_top, finding_for_lone}
use ai_ops.Descent.Total.{Covers}

abbrev pub is_named : String → List Rung → Bool
is_named name rs = any (λ (r : Rung). str_eq r.name name) rs

-- no two rungs of a ladder have one name
abbrev pub distinct_names : List Rung → Bool
distinct_names [] = true
distinct_names (r ∷ rs) = not (is_named r.name rs) && distinct_names rs

cons-nil :
    (above : List RungOutcome) (o : RungOutcome) (below : List RungOutcome)
    → ¬ (above ++ o ∷ below ≡ [])
cons-nil [] o below h = ground arith
cons-nil (a ∷ above) o below h = ground arith

or_right : (a b : Bool) → b ≡ true → (a || b) ≡ true
or_right a b h = ground arith

or_left : (a b : Bool) → a ≡ true → (a || b) ≡ true
or_left a b h = ground arith

same_name : (a b : String) → str_eq a b ≡ true → str_eq b a ≡ true
same_name a b h = (eq_iff b a).1 (sym ((eq_iff a b).0 h))

covered_name :
    (rs : List Rung) (above : List RungOutcome) (o : RungOutcome) (below : List RungOutcome)
    → Covers rs (above ++ o ∷ below)
    → is_named o.rung rs ≡ true
covered_name [] [] o below covers = elim covers [ ]
covered_name [] (a ∷ above) o below covers = elim covers [ ]
covered_name (r ∷ rs) [] o below covers = or_left _ _ (same_name o.rung r.name covers.0)
covered_name (r ∷ rs) (a ∷ above) o below covers = elim (covers.1) [
  | inl stop ↦ absurd (cons-nil above o below stop.1)
  | inr on ↦ or_right _ _ (covered_name rs above o below on.1)
]

-- of a ladder with distinct names, no outcome above has the name of an outcome
pub fresh_name :
    (rs : List Rung) (above : List RungOutcome) (o : RungOutcome) (below : List RungOutcome)
    → Covers rs (above ++ o ∷ below)
    → distinct_names rs ≡ true
    → named o.rung above ≡ false
fresh_name rs [] o below covers distinct = refl
fresh_name [] (a ∷ above) o below covers distinct = elim covers [ ]
fresh_name (r ∷ rs) (a ∷ above) o below covers distinct = elim (covers.1) [
  | inl stop ↦ absurd (cons-nil above o below stop.1)
  | inr on ↦
      let later = fresh_name rs above o below on.1 (ground arith) in
      elim (Bool-cases (str_eq a.rung o.rung)) [
        | inr other ↦ ground (arith, other, later)
        | inl same ↦
            let name : o.rung ≡ r.name =
              sym ((eq_iff a.rung o.rung).0 same) ∙ (eq_iff a.rung r.name).0 covers.0 in
            let twice : is_named r.name rs ≡ true =
              ap (λ n. is_named n rs) (sym name) ∙ covered_name rs above o below on.1 in
            absurd (ground arith)
      ]
]

-- the finding, by the outcomes above and beneath the lowest broken one
abbrev pub explained : List RungOutcome → List RungOutcome → Finding
explained [] [] = of_rung 0
explained [] (next ∷ below) = cause_not_localised
explained (top ∷ above) below = of_rung (suc (length above))

-- its text: the symptom alone does not say what is wrong where more was read beneath it
abbrev pub text_of : List RungOutcome → List RungOutcome → Rung → String
text_of [] [] rung = rung.finding
text_of [] (next ∷ below) rung = "cause_not_localised"
text_of (top ∷ above) below rung = rung.finding

pub finding_for-explained :
    (above : List RungOutcome) (o : RungOutcome) (below : List RungOutcome) (c : Option Coherence)
    → any unread (above ++ o ∷ below) ≡ false
    → refused_by c ≡ false
    → symptom_up (above ++ o ∷ below) ≡ false
    → down o ≡ true
    → all up below ≡ true
    → named o.rung above ≡ false
    → finding_for (above ++ o ∷ below) c ≡ explained above below
finding_for-explained [] o [] c read held symptom d h fresh = finding_for_lone o c d held
finding_for-explained [] o (next ∷ below) c read held symptom d h fresh =
    finding_for_top o next below c d h held
finding_for-explained (top ∷ above) o below c read held symptom d h fresh =
    finding_for_lowest top above o below c read held symptom d h fresh

pub text-explained :
    (f : Flow) (above below : List RungOutcome) (rung : Rung)
    → nth_finding (length above) f.descent ≡ some rung.finding
    → finding_text f (explained above below) ≡ some (text_of above below rung)
unfolding finding_text
text-explained f [] [] rung h = h
text-explained f [] (next ∷ below) rung h = refl
text-explained f (top ∷ above) below rung h = h
