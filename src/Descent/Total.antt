-- ===== src/Descent/Total.antt =====
-- descent.py: which rungs a walk covers, and that a descent of sound checks always ends in a result.
use ai_ops.Prelude.{
  ◌≡◌, ◌⊎◌, refl, sym, ap, true, false, Option, none, some, List, [], ◌∷◌, ◌++◌, map, String, All,
  All-append, ◌∙◌, arith, str_eq, Bool-cases, inl, inr, join_texts, eq_refl,
}
use ai_ops.Checks.{CheckResult, is_valid, make_result, is_unevaluated}
use ai_ops.Evidence.{Evidence}
use ai_ops.Flows.{Aggregation, Rung}
use ai_ops.Descent.{
  RungOutcome, Resolved, Devices, devices, unresolved, resolve_devices, rung_subjects, or_else,
}
use ai_ops.Descent.Aggregate.{AllValid, aggregate-verdict}
use ai_ops.Descent.Finding.{unread}
use ai_ops.Descent.Walk.{
  Walk, walk, visit, nothing_walked, evaluate_rung, collect_members, member_results, prepend,
  no_objects, unresolved_result, after_rung, stop_at, go_on, outcome_of,
}

-- the outcomes are those of the rungs in order, and only the last one can be unread: it is unread
-- exactly where rungs below it were not walked, or it is the last rung
abbrev pub Covers : List Rung → List RungOutcome → Type 0
Covers [] [] = Unit
Covers [] (o ∷ os) = ⊥
Covers (r ∷ rs) [] = ⊥
Covers (r ∷ rs) (o ∷ os) =
    (str_eq o.rung r.name ≡ true)
    × (((unread o ≡ true) × (os ≡ [])) ⊎ ((unread o ≡ false) × Covers rs os))

went_on :
    (c : CheckResult) (r : Rung) (where_ : String) (below : Option Walk) {w : Walk}
    → is_unevaluated c.status ≡ false
    → after_rung (some c) r where_ below ≡ some w
    → (b : Walk) × (below ≡ some b) × (w ≡ go_on (outcome_of r where_ c) b)
went_on c r where_ none read h = ground arith
went_on c r where_ (some b) read h = (b, refl, ground arith)

after_rung-Covers :
    (result : Option CheckResult) (r : Rung) (where_ : String) (below : Option Walk)
    (rs : List Rung) {w : Walk}
    → ((b : Walk) → below ≡ some b → Covers rs b.outcomes)
    → after_rung result r where_ below ≡ some w
    → Covers (r ∷ rs) w.outcomes
after_rung-Covers none r where_ below rs covered h = ground arith
after_rung-Covers (some c) r where_ below rs {w} covered h =
    elim (Bool-cases (is_unevaluated c.status)) [
      | inl blind ↦
          let stopped : w ≡ stop_at (outcome_of r where_ c) c.reason = ground arith in
          rw stopped (eq_refl r.name, inl (blind, refl))
      | inr read ↦
          let (b, found, went) = went_on c r where_ below read h in
          rw went (eq_refl r.name, inr (read, covered b found))
    ]

resolved-cases :
    (d : Devices)
    → ((why : String) × (d ≡ unresolved why)) ⊎ ((ds : List String) × (d ≡ devices ds))
resolved-cases (unresolved why) = inl (why, refl)
resolved-cases (devices ds) = inr (ds, refl)

module _ (device subject : String) (collector : String → Rung → String → Evidence)
    (resolver : Option (String → Resolved)) (origin : Option String) where
  abbrev below : List Rung → Option Walk
  below rungs = walk rungs device subject collector resolver origin

  walk-unresolved :
      (r : Rung) (rs : List Rung) {why : String}
      → resolve_devices r device subject resolver ≡ unresolved why
      → below (r ∷ rs) ≡ some (stop_at (outcome_of r device (unresolved_result why)) (some why))
  unfolding walk make_result is_valid
  walk-unresolved r rs e = ap (λ d. visit d r device subject collector origin (below rs)) e

  walk-devices :
      (r : Rung) (rs : List Rung) {ds : List String}
      → resolve_devices r device subject resolver ≡ devices ds
      → below (r ∷ rs)
        ≡ after_rung
            (evaluate_rung r ds subject (λ target. collector target r subject) origin)
            r
            (join_texts ", " ds)
            (below rs)
  unfolding walk
  walk-devices r rs e = ap (λ d. visit d r device subject collector origin (below rs)) e

  -- The outcomes of a walk are those of the rungs of the ladder from the top, in order, and the
  -- walk stops at the first rung that could not be read and nowhere else: where none is unread,
  -- every rung was evaluated.
  pub walk-Covers : (rungs : List Rung) {w : Walk} → below rungs ≡ some w → Covers rungs w.outcomes
  unfolding walk
  walk-Covers [] {w} h = let none_walked : w ≡ nothing_walked = ground arith in rw none_walked tt
  walk-Covers (r ∷ rs) {w} h = elim (resolved-cases (resolve_devices r device subject resolver)) [
    | inl (why, e) ↦
        let stop = walk-unresolved r rs e in
        let stopped : w ≡ stop_at (outcome_of r device (unresolved_result why)) (some why) =
          ground arith in
        rw stopped (eq_refl r.name, inl (refl, refl))
    | inr (ds, e) ↦
        after_rung-Covers (evaluate_rung r ds subject (λ target. collector target r subject) origin)
          r (join_texts ", " ds) (below rs) rs {w = w} (λ b found. walk-Covers rs found)
          (sym (walk-devices r rs e) ∙ h)
  ]

-- every result of the rung's check cites its evidence
abbrev pub Sound : Rung → Type 0
Sound r = (e : Evidence) (s : Option String) → is_valid (r.check e s) ≡ true

map-AllValid :
    (rung : Rung) (e : Evidence) (ss : List (Option String))
    → Sound rung
    → AllValid (map (rung.check e) ss)
map-AllValid rung e [] sound = tt
map-AllValid rung e (s ∷ ss) sound = (sound e s, map-AllValid rung e ss sound)

member_results_total :
    (rung : Rung) (target subject : String) (e : Evidence) (ss : List (Option String))
    → Sound rung
    → (rs : List CheckResult) × (member_results rung target subject e ss ≡ some rs) × AllValid rs
unfolding is_valid make_result
member_results_total rung target subject e [] sound =
    (no_objects rung target subject ∷ [], refl, (refl, tt))
member_results_total rung target subject e (s ∷ ss) sound =
    (map (rung.check e) (s ∷ ss), refl, map-AllValid rung e (s ∷ ss) sound)

prepend-some :
    {m : Option (List CheckResult)} {c : Option (List CheckResult × Option Aggregation)}
    {rs rest : List CheckResult} {how : Option Aggregation}
    → m ≡ some rs
    → c ≡ some (rest, how)
    → prepend m c ≡ some (rs ++ rest, how)
prepend-some {m} {c} made collected = ground arith

collect_members_total :
    (rung : Rung) (targets : List String) (subject : String) (evidence_for : String → Evidence)
    (origin : Option String) (how : Option Aggregation)
    → Sound rung
    → (rs : List CheckResult) × (final : Option Aggregation) × (collect_members rung targets subject
          evidence_for origin how
        ≡ some (rs, final))
      × AllValid rs
unfolding collect_members
collect_members_total rung [] subject evidence_for origin how sound = ([], how, refl, tt)
collect_members_total rung (t ∷ ts) subject evidence_for origin how sound =
    let asked = rung_subjects rung.subject_rule subject (evidence_for t) origin in
    let (rs, made, valid) = member_results_total rung t subject (evidence_for t) asked.0 sound in
    let (rest, final, collected, valid_rest) =
      collect_members_total rung ts subject evidence_for origin (or_else asked.1 how) sound in
    (
      rs ++ rest,
      final,
      prepend-some made collected,
      All-append (λ r. is_valid r ≡ true) rs rest valid valid_rest,
    )

evaluate_rung_total :
    (rung : Rung) (targets : List String) (subject : String) (evidence_for : String → Evidence)
    (origin : Option String)
    → Sound rung
    → (r : CheckResult) × (evaluate_rung rung targets subject evidence_for origin ≡ some r)
unfolding evaluate_rung
evaluate_rung_total rung targets subject evidence_for origin sound =
    let (rs, final, collected, valid) =
      collect_members_total rung targets subject evidence_for origin none sound in
    let (r, made, v, meant) = aggregate-verdict rung rs final valid in (r, ground arith)

after_rung_total :
    (c : CheckResult) (r : Rung) (where_ : String) (b : Walk)
    → (w : Walk) × (after_rung (some c) r where_ (some b) ≡ some w)
after_rung_total c r where_ b = elim (Bool-cases (is_unevaluated c.status)) [
  | inl blind ↦ (stop_at (outcome_of r where_ c) c.reason, ground arith)
  | inr read ↦ (go_on (outcome_of r where_ c) b, ground arith)
]

module _ (device subject : String) (collector : String → Rung → String → Evidence)
    (resolver : Option (String → Resolved)) (origin : Option String) where
  pub walk_total :
      (rungs : List Rung)
      → All Sound rungs
      → (w : Walk) × (walk rungs device subject collector resolver origin ≡ some w)
  unfolding walk
  walk_total [] sound = (nothing_walked, refl)
  walk_total (r ∷ rs) sound =
      let (b, walked) = walk_total rs sound.1 in
      elim (resolved-cases (resolve_devices r device subject resolver)) [
        | inl (why, e) ↦ (
          stop_at (outcome_of r device (unresolved_result why)) (some why),
          walk-unresolved device subject collector resolver origin r rs e,
        )
        | inr (ds, e) ↦
            let (c, evaluated) =
              evaluate_rung_total r ds subject (λ target. collector target r subject) origin
                sound.0 in
            let (w, went) = after_rung_total c r (join_texts ", " ds) b in
            (
              w,
              walk-devices device subject collector resolver origin r rs e
                  ∙ ap
                      (λ x.
                        after_rung x r (join_texts ", " ds)
                          (walk rs device subject collector resolver origin))
                      evaluated
                  ∙ ap (after_rung (some c) r (join_texts ", " ds)) walked
                  ∙ went,
            )
      ]
