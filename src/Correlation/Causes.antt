-- ===== src/Correlation/Causes.antt =====
-- The incidents of a list of diagnoses: one for each cause that two of them share.
use ai_ops.Prelude.{
  keep_cong, Option, none, some, str_eq, ◌≤◌, ◌≡◌, refl, sym, ap, ◌∙◌, subst, String, Bool, true,
  false, not, ◌&&◌, List, [], ◌∷◌, leb, keep, length, All, if◌then◌else◌, arith, Bool-cases, inl,
  inr, any, ◌||◌, ◌⊎◌, leb→le, le→leb,
}
use ai_ops.Correlation.{
  DiagnosisRef, Incident, same_cause, cause_key, is_incident, incidents_of, correlate_by_cause,
}
use ai_ops.Correlation.Groups.{
  same_key, same_key_iff, has_key, group_by, members_of, members_of-group_by, OneEach,
  group_by-OneEach,
}

abbrev Group : Type 0
Group = List String × List DiagnosisRef

abbrev is_text : String → Option String → Bool
is_text s none = false
is_text s (some t) = str_eq t s

abbrev pub is_absent : Option String → Bool
is_absent none = true
is_absent (some s) = false

-- a cause is a device, a rung and a subject; a diagnosis shares it that names these three and its run
abbrev pub shares : List String → DiagnosisRef → Bool
shares (device ∷ rung ∷ subject ∷ []) d =
    is_text device d.cause_device
    && (is_text rung d.cause_rung && (is_text subject d.cause_subject && not (is_absent d.run_id)))
shares _ d = false

-- a diagnosis that names a rung and its device
abbrev pub is_caused : DiagnosisRef → Bool
is_caused d = not (is_absent d.cause_rung || is_absent d.cause_device)

-- the diagnoses that share a cause
abbrev pub of_cause : List String → List DiagnosisRef → List DiagnosisRef
of_cause k = keep (shares k)

has_key-cause_key : (k : List String) (d : DiagnosisRef) → has_key k (cause_key d) ≡ shares k d
unfolding cause_key
has_key-cause_key [] d = ground arith
has_key-cause_key (device ∷ []) d = ground arith
has_key-cause_key (device ∷ rung ∷ []) d = ground arith
has_key-cause_key (device ∷ rung ∷ subject ∷ []) d = ground arith
has_key-cause_key (device ∷ rung ∷ subject ∷ more ∷ k) d = ground arith

-- an incident has all the diagnoses of its cause, and at least two
abbrev pub IsShared : List DiagnosisRef → Incident → Type 0
IsShared ds i = (i.members ≡ of_cause i.key ds) × (2 ≤ length i.members)

abbrev pub has_incident : List String → List Incident → Bool
has_incident k = any (λ (i : Incident). same_key i.key k)

past :
    (k : List String) (ms : List DiagnosisRef) (gs sub : List Group)
    → All (λ (x : Group). same_key x.0 k ≡ false) sub
    → All (λ (g : Group). members_of g.0 gs ≡ g.1) sub
    → All (λ (g : Group). members_of g.0 ((k, ms) ∷ gs) ≡ g.1) sub
past k ms gs [] others each = tt
past k ms gs (g ∷ sub) others each =
    let other : same_key k g.0 ≡ false =
      ground (arith, others.0, same_key_iff k g.0, same_key_iff g.0 k) in
    (rw other each.0, past k ms gs sub others.1 each.1)

-- in a list of groups with one for each key, a group is what its key finds
members_of-OneEach :
    (gs : List Group) → OneEach gs → All (λ (g : Group). members_of g.0 gs ≡ g.1) gs
members_of-OneEach [] o = tt
members_of-OneEach ((k, ms) ∷ gs) o =
    (rw ((same_key_iff k k).1 refl) refl, past k ms gs gs o.0 (members_of-OneEach gs o.1))

shared :
    (ds : List DiagnosisRef) (all_groups sub : List Group)
    → ((k : List String) → members_of k all_groups ≡ of_cause k ds)
    → All (λ (g : Group). members_of g.0 all_groups ≡ g.1) sub
    → All (IsShared ds) (incidents_of same_cause sub)
shared ds all_groups [] found each = tt
shared ds all_groups (g ∷ gs) found each = elim (Bool-cases (is_incident g)) [
  | inl e ↦
      rw e ((sym each.0 ∙ found g.0, leb→le 2 (length g.1) e), shared ds all_groups gs found each.1)
  | inr e ↦ rw e (shared ds all_groups gs found each.1)
]

has_incident-of :
    (k : List String) (gs : List Group)
    → 2 ≤ length (members_of k gs)
    → has_incident k (incidents_of same_cause gs) ≡ true
has_incident-of k [] h = absurd (omega arith)
has_incident-of k ((j, ms) ∷ gs) h = elim (Bool-cases (same_key j k)) [
  | inl e ↦
      let many : is_incident (j, ms) ≡ true =
        le→leb 2 (length ms) (subst (λ b. 2 ≤ length (if b then ms else members_of k gs)) e h) in
      rw many (ap (λ b. b || has_incident k (incidents_of same_cause gs)) e)
  | inr e ↦
      let later =
        has_incident-of k gs (subst (λ b. 2 ≤ length (if b then ms else members_of k gs)) e h) in
      elim (Bool-cases (is_incident (j, ms))) [
        | inl many ↦ rw many (ground (arith, later))
        | inr few ↦ rw few later
      ]
]

-- Each incident by cause is formed of exactly the diagnoses that name the device, the rung and the
-- subject of its cause, and a run, in their order; there are at least two of them; and every cause that
-- two diagnoses share has an incident. The diagnoses that name a rung and a device are reported
-- as left out, in their order, in one list where they have no subject and in another where they
-- have no run, and in both where they have neither.
pub correlate_by_cause-IsShared :
    (ds : List DiagnosisRef)
    → All (IsShared ds) (correlate_by_cause ds).0
      × ((k : List String)
          → (length (of_cause k ds) ≤ 1) ⊎ (has_incident k (correlate_by_cause ds).0 ≡ true))
      × ((correlate_by_cause ds).1 ≡ keep (λ d. is_caused d && is_absent d.cause_subject) ds)
      × ((correlate_by_cause ds).2 ≡ keep (λ d. is_caused d && is_absent d.run_id) ds)
unfolding correlate_by_cause
correlate_by_cause-IsShared ds =
    let groups = group_by cause_key [] ds in
    let found : (k : List String) → members_of k groups ≡ of_cause k ds = λ k.
      members_of-group_by cause_key k [] ds
      ∙ keep_cong (λ d. has_key k (cause_key d)) (shares k) ds (has_key-cause_key k) in
    (
      shared ds groups groups found
          (members_of-OneEach groups (group_by-OneEach cause_key [] ds tt)),
      (λ k. elim (Bool-cases (leb 2 (length (of_cause k ds)))) [
        | inl two ↦ inr (
            has_incident-of k groups
              (subst (λ ms. 2 ≤ length ms) (sym (found k)) (leb→le 2 (length (of_cause k ds)) two)))
        | inr few ↦ inl (ground arith)
      ]),
      keep_cong _ _ ds (λ d. ground arith),
      keep_cong _ _ ds (λ d. ground arith),
    )
