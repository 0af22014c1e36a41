-- ===== src/Descent/Localise.antt =====
-- descent.py: what `_finding_for` says of the outcomes of a walk.
use ai_ops.Prelude.{
  ℕ, zero, suc, ◌≡◌, ◌⊎◌, refl, Bool, true, false, ◌||◌, Option, none, some, List, [], ◌∷◌, ◌++◌,
  String, any, all, length, keep, last?, arith, str_eq, Bool-cases, Option-cases, inl, inr, eq_refl,
  opt_str_eq,
}
use ai_ops.Checks.{
  Status, healthy, broken, unevaluated, result_eq, status_eq, texts_eq, opt_texts_eq,
}
use ai_ops.Coherence.{Coherence}
use ai_ops.Descent.{RungOutcome}
use ai_ops.Descent.Finding.{
  cause_not_localised, of_rung, finding_for, outcome_eq, index, unread, down, up, refused_by,
  symptom_up,
}

keep-append :
    (p : RungOutcome → Bool) (xs ys : List RungOutcome) → keep p (xs ++ ys) ≡ keep p xs ++ keep p ys
keep-append p [] ys = refl
keep-append p (x ∷ xs) ys = ground (arith, keep-append p xs ys)

last-snoc : (xs : List RungOutcome) (x : RungOutcome) → last? (xs ++ x ∷ []) ≡ some x
last-snoc [] x = refl
last-snoc (y ∷ []) x = refl
last-snoc (y ∷ z ∷ zs) x = last-snoc (z ∷ zs) x

keep-down_of_up : (os : List RungOutcome) → all up os ≡ true → keep down os ≡ []
keep-down_of_up [] h = refl
keep-down_of_up (o ∷ os) h = ground (arith, keep-down_of_up os)

lowest :
    (above : List RungOutcome) (o : RungOutcome) (below : List RungOutcome)
    → down o ≡ true
    → all up below ≡ true
    → last? (keep down (above ++ o ∷ below)) ≡ some o
lowest above o below d h =
    let k = keep-append down above (o ∷ below) in
    let none_below = keep-down_of_up below h in
    let at_end = last-snoc (keep down above) o in ground arith

all-up-any-unread : (os : List RungOutcome) → all up os ≡ true → any unread os ≡ false
all-up-any-unread [] h = refl
all-up-any-unread (o ∷ os) h = ground (arith, all-up-any-unread os)

texts_eq_refl : (xs : List String) → texts_eq xs xs ≡ true
texts_eq_refl [] = refl
texts_eq_refl (x ∷ xs) = ground (arith, eq_refl x, texts_eq_refl xs)

opt_texts_eq_refl : (o : Option (List String)) → opt_texts_eq o o ≡ true
opt_texts_eq_refl none = refl
opt_texts_eq_refl (some xs) = texts_eq_refl xs

opt_str_eq_refl : (o : Option String) → opt_str_eq o o ≡ true
opt_str_eq_refl none = refl
opt_str_eq_refl (some x) = eq_refl x

status_eq_refl : (s : Status) → status_eq s s ≡ true
status_eq_refl healthy = refl
status_eq_refl broken = refl
status_eq_refl unevaluated = refl

outcome_eq_refl : (o : RungOutcome) → outcome_eq o o ≡ true
unfolding outcome_eq result_eq
outcome_eq_refl o = ground (
  arith,
  eq_refl o.rung,
  eq_refl o.device,
  status_eq_refl o.result.status,
  opt_str_eq_refl o.result.reason,
  opt_str_eq_refl o.result.subject,
  texts_eq_refl o.result.evidence_keys,
  opt_texts_eq_refl o.result.device_text,
)

abbrev pub named : String → List RungOutcome → Bool
named name [] = false
named name (o ∷ os) = str_eq o.rung name || named name os

other_name : (a o : RungOutcome) → str_eq a.rung o.rung ≡ false → outcome_eq a o ≡ false
unfolding outcome_eq
other_name a o h = ground arith

index-append :
    (above : List RungOutcome) (o : RungOutcome) (below : List RungOutcome)
    → named o.rung above ≡ false
    → index o (above ++ o ∷ below) ≡ length above
unfolding index
index-append [] o below h = ground (arith, outcome_eq_refl o)
index-append (a ∷ above) o below h =
    let other = other_name a o in ground (arith, index-append above o below)

-- The lowest broken rung below a broken symptom is the one whose finding is reported: every rung
-- was read, the observations do not refuse a finding, the rungs beneath it are healthy, and no
-- rung above it has its name.
pub finding_for_lowest :
    (top : RungOutcome) (above : List RungOutcome) (o : RungOutcome) (below : List RungOutcome)
    (c : Option Coherence)
    → any unread (top ∷ above ++ o ∷ below) ≡ false
    → refused_by c ≡ false
    → up top ≡ false
    → down o ≡ true
    → all up below ≡ true
    → named o.rung (top ∷ above) ≡ false
    → finding_for (top ∷ above ++ o ∷ below) c ≡ of_rung (suc (length above))
unfolding finding_for
finding_for_lowest top above o below c read held symptom d h fresh =
    let last = lowest (top ∷ above) o below d h in
    let place = index-append (top ∷ above) o below fresh in ground arith

-- With nothing broken above it, the symptom itself is the lowest broken rung: what explains it is
-- not among the rungs that were read beneath it.
pub finding_for_top :
    (top next : RungOutcome) (below : List RungOutcome) (c : Option Coherence)
    → down top ≡ true
    → all up (next ∷ below) ≡ true
    → refused_by c ≡ false
    → finding_for (top ∷ next ∷ below) c ≡ cause_not_localised
unfolding finding_for
finding_for_top top next below c d h held =
    let last = lowest [] top (next ∷ below) d h in
    let place = index-append [] top (next ∷ below) refl in
    let read = all-up-any-unread (next ∷ below) h in ground arith

-- a symptom with nothing beneath it is its own explanation
pub finding_for_lone :
    (o : RungOutcome) (c : Option Coherence)
    → down o ≡ true
    → refused_by c ≡ false
    → finding_for (o ∷ []) c ≡ of_rung 0
unfolding finding_for
finding_for_lone o c d held =
    let last = lowest [] o [] d refl in let place = index-append [] o [] refl in ground arith

abbrev pub nth : ℕ → List RungOutcome → Option RungOutcome
nth n [] = none
nth zero (o ∷ os) = some o
nth (suc n) (o ∷ os) = nth n os

abbrev has : RungOutcome → List RungOutcome → Bool
has l [] = false
has l (o ∷ os) = outcome_eq o l || has l os

last?-cons : (x : RungOutcome) (xs : List RungOutcome) → (xs ≡ []) ⊎ (last? (x ∷ xs) ≡ last? xs)
last?-cons x [] = inl refl
last?-cons x (y ∷ ys) = inr refl

last-keep :
    (os : List RungOutcome) (l : RungOutcome)
    → last? (keep down os) ≡ some l
    → (down l ≡ true) × (has l os ≡ true)
last-keep [] l h = ground arith
last-keep (o ∷ os) l h =
    let self = outcome_eq_refl o in
    elim (Bool-cases (down o)) [
      | inr other ↦ let rest = last-keep os l (ground arith) in ground arith
      | inl broke ↦ elim (last?-cons o (keep down os)) [
        | inl alone ↦ ground arith
        | inr below ↦ let rest = last-keep os l (ground arith) in ground arith
      ]
    ]

same_status : (a b : RungOutcome) → outcome_eq a b ≡ true → down b ≡ true → down a ≡ true
unfolding outcome_eq result_eq
same_status a b h d = ground arith

nth-index :
    (os : List RungOutcome) (l : RungOutcome)
    → has l os ≡ true
    → down l ≡ true
    → (o : RungOutcome) × (nth (index l os) os ≡ some o) × (down o ≡ true)
unfolding index
nth-index [] l h d = ground arith
nth-index (o ∷ os) l h d = elim (Bool-cases (outcome_eq o l)) [
  | inl same ↦ (o, ground arith, same_status o l same d)
  | inr other ↦ let (x, at, broke) = nth-index os l (ground arith) d in (x, ground arith, broke)
]

-- A rung's own finding is reported only of a broken rung, and only where every rung was read, the
-- observations do not refuse a finding, and the symptom is not healthy.
pub finding_for_of_rung :
    (os : List RungOutcome) (c : Option Coherence) (i : ℕ)
    → finding_for os c ≡ of_rung i
    → (any unread os ≡ false)
      × (refused_by c ≡ false)
      × (symptom_up os ≡ false)
      × (o : RungOutcome) × (nth i os ≡ some o)
      × (down o ≡ true)
unfolding finding_for
finding_for_of_rung os c i h = elim (Option-cases (last? (keep down os))) [
  | inl nothing ↦ ground arith
  | inr (l, found) ↦
      let (d, there) = last-keep os l found in
      let (o, at, broke) = nth-index os l there d in
      (ground arith, ground arith, ground arith, o, ground arith, broke)
]
