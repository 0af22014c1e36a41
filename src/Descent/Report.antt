-- ===== src/Descent/Report.antt =====
-- descent.py: what the result of `run_descent` says.
use ai_ops.Prelude.{
  ℕ, zero, suc, ◌≡◌, refl, sym, ap, ◌∙◌, true, false, Option, none, some, List, [], ◌∷◌, ◌++◌,
  String, All, any, all, length, arith, str_eq, subst, inl, inr,
}
use mathlib.Core.Option.{some_inj}
use ai_ops.Evidence.{Evidence}
use ai_ops.Flows.{Rung, Flow}
use ai_ops.Coherence.{Coherence}
use ai_ops.Descent.{RungOutcome, Resolved}
use ai_ops.Descent.Finding.{
  unread, up, down, refused_by, symptom_up, finding_for, finding_text, Finding, of_rung,
  undetermined, temporally_incoherent, all_layers_healthy, no_fault_on_path, cause_not_localised,
  nth_finding,
}
use ai_ops.Descent.Walk.{
  Walk, walk, run_descent, DescentResult, verdict_on, report, ended, concluded,
}
use ai_ops.Descent.Localise.{nth, finding_for_of_rung}
use ai_ops.Descent.Lowest.{
  distinct_names, explained, text_of, fresh_name, finding_for-explained, text-explained,
}
use ai_ops.Descent.Total.{Covers, Sound, walk-Covers, walk_total}

abbrev pub nth_rung : ℕ → List Rung → Option Rung
nth_rung n [] = none
nth_rung zero (r ∷ rs) = some r
nth_rung (suc n) (r ∷ rs) = nth_rung n rs

nth-Covers :
    (i : ℕ) (rs : List Rung) (os : List RungOutcome) {o : RungOutcome}
    → Covers rs os
    → nth i os ≡ some o
    → (r : Rung) × (nth_rung i rs ≡ some r)
      × (str_eq o.rung r.name ≡ true)
      × (nth_finding i rs ≡ some r.finding)
nth-Covers i rs [] covers at = ground arith
nth-Covers i [] (o ∷ os) covers at = elim covers [ ]
nth-Covers zero (r ∷ rs) (o ∷ os) {o = x} covers at =
    let same : o ≡ x = ground arith in
    (r, refl, subst (λ (y : RungOutcome). str_eq y.rung r.name ≡ true) same covers.0, refl)
nth-Covers (suc i) (r ∷ rs) (o ∷ os) covers at = elim (covers.1) [
  | inl stop ↦ ground arith
  | inr on ↦ nth-Covers i rs os on.1 at
]

nth-middle :
    (above : List RungOutcome) (o : RungOutcome) (below : List RungOutcome)
    → nth (length above) (above ++ o ∷ below) ≡ some o
nth-middle [] o below = refl
nth-middle (a ∷ above) o below = nth-middle above o below

finding_text_total :
    (f : Flow) (os : List RungOutcome) (c : Option Coherence)
    → Covers f.descent os
    → (x : Finding) → finding_for os c ≡ x
    → (t : String) × (finding_text f x ≡ some t)
unfolding finding_text
finding_text_total f os c covers undetermined e = ("undetermined", refl)
finding_text_total f os c covers temporally_incoherent e = ("temporally_incoherent", refl)
finding_text_total f os c covers all_layers_healthy e = ("all_layers_healthy", refl)
finding_text_total f os c covers no_fault_on_path e = ("no_fault_on_path", refl)
finding_text_total f os c covers cause_not_localised e = ("cause_not_localised", refl)
finding_text_total f os c covers (of_rung i) e =
    let (a, b, d, o, at, broke) = finding_for_of_rung os c i e in
    let (r, there, same, text) = nth-Covers i f.descent os covers at in (r.finding, text)

ended_inv :
    (f : Flow) (d s : String) (w : Walk) (c : Option Coherence) (x : Option String)
    {r : DescentResult}
    → ended f d s w c x ≡ some r
    → (t : String) × (x ≡ some t) × (r ≡ report f d s w c t)
ended_inv f d s w c none h = ground arith
ended_inv f d s w c (some t) h = (t, refl, sym (some_inj.0 h))

finished_inv :
    (f : Flow) (d s : String) (check : Option (List RungOutcome → Coherence)) (x : Option Walk)
    {r : DescentResult}
    → concluded f d s check x ≡ some r
    → (w : Walk) × (t : String) × (x ≡ some w)
      × (finding_text f (finding_for w.outcomes (verdict_on check w)) ≡ some t)
      × (r ≡ report f d s w (verdict_on check w) t)
finished_inv f d s check none h = ground arith
finished_inv f d s check (some w) h =
    let c = verdict_on check w in
    let (t, text, result) = ended_inv f d s w c (finding_text f (finding_for w.outcomes c)) h in
    (w, t, refl, text, result)

module _ (f : Flow) (device subject : String) (collector : String → Rung → String → Evidence)
    (resolver : Option (String → Resolved)) (check : Option (List RungOutcome → Coherence))
    (origin : Option String) where
  -- A descent whose checks cite their evidence always ends in a result, and its outcomes cover the
  -- ladder down to the first rung that could not be read.
  pub run_descent_total :
      All Sound f.descent
      → (r : DescentResult) × (run_descent f device subject collector resolver check origin
          ≡ some r)
        × Covers f.descent r.outcomes
  unfolding run_descent
  run_descent_total sound =
      let (w, walked) = walk_total device subject collector resolver origin f.descent sound in
      let covers = walk-Covers device subject collector resolver origin f.descent walked in
      let c = verdict_on check w in
      let (t, text) = finding_text_total f w.outcomes c covers (finding_for w.outcomes c) refl in
      (
        report f device subject w c t,
        ap (concluded f device subject check) walked ∙ ap (ended f device subject w c) text,
        covers,
      )

  -- Where every rung that was walked was read, the observations do not refuse a finding, the symptom
  -- is not healthy and no two rungs of the ladder have one name, the reported finding is that of the
  -- rung of the lowest broken outcome, beneath which all outcomes are healthy; but where that is
  -- the symptom itself and more was read beneath it, the finding is `cause_not_localised`.
  pub run_descent_lowest :
      (above : List RungOutcome) (o : RungOutcome) (below : List RungOutcome) {r : DescentResult}
      → run_descent f device subject collector resolver check origin ≡ some r
      → r.outcomes ≡ above ++ o ∷ below
      → any unread r.outcomes ≡ false
      → refused_by r.coherence ≡ false
      → symptom_up r.outcomes ≡ false
      → down o ≡ true
      → all up below ≡ true
      → distinct_names f.descent ≡ true
      → (rung : Rung) × (nth_rung (length above) f.descent ≡ some rung)
        × (str_eq o.rung rung.name ≡ true)
        × (r.finding ≡ text_of above below rung)
  unfolding run_descent
  run_descent_lowest above o below {r} h shape read held symptom d healthy_below distinct =
      let (w, t, walked, text, result) =
        finished_inv f device subject check
          (walk f.descent device subject collector resolver origin) h in
      let outcomes : r.outcomes ≡ w.outcomes = ap (λ x. x.outcomes) result in
      let covers : Covers f.descent (above ++ o ∷ below) =
        subst (Covers f.descent) (sym outcomes ∙ shape)
          (walk-Covers device subject collector resolver origin f.descent walked) in
      let (rung, at, same, of) =
        nth-Covers (length above) f.descent (above ++ o ∷ below) covers
          (nth-middle above o below) in
      let blamed : finding_for w.outcomes (verdict_on check w) ≡ explained above below =
        ap (λ os. finding_for os (verdict_on check w)) (sym outcomes ∙ shape)
        ∙ finding_for-explained above o below (verdict_on check w)
            (sym (ap (any unread) shape) ∙ read)
            (sym (ap (λ (x : DescentResult). refused_by x.coherence) result) ∙ held)
            (sym (ap symptom_up shape) ∙ symptom) d healthy_below
            (fresh_name f.descent above o below covers distinct) in
      let finding : r.finding ≡ t = ap (λ x. x.finding) result in
      let told : some (text_of above below rung) ≡ some t =
        sym (text-explained f above below rung of) ∙ sym (ap (finding_text f) blamed) ∙ text in
      (rung, at, same, finding ∙ sym (some_inj.0 told))
