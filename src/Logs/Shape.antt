-- ===== src/Logs/Shape.antt =====
-- What shaping a log window keeps, and that its counts add up.
use ai_ops.Prelude.{
  ◌+◌, ◌≤◌, ◌≡◌, inl, inr, refl, sym, ap, ◌∙◌, subst, String, Bool, true, false, not, ◌&&◌, ◌||◌,
  Option, none, some, List, [], ◌∷◌, any, is_empty, if◌then◌else◌, length, keep, All, arith,
  Bool-cases, eq_refl, length-keep, count_if-le-length,
}
use ai_ops.Logs.{
  LogRecord, NoiseRule, ShapedWindow, matches, same_line, unseen, dedupe, drop_collector_noise,
  filter_to_subject, denoised, about, shape_window,
}
use ai_ops.Logs.Text.{contains}

All-weaken {κ} :
    {P Q : LogRecord → Type κ}
    → ((r : LogRecord) → P r → Q r)
    → (rs : List LogRecord) → All P rs
    → All Q rs
All-weaken f [] h = tt
All-weaken f (r ∷ rs) h = (f r h.0, All-weaken f rs h.1)

same_line_self : (r : LogRecord) → same_line r r ≡ true
same_line_self r = ground (arith, eq_refl r.timestamp, eq_refl r.mnemonic, eq_refl r.text)

-- no line of the list stands again behind it
abbrev pub IsDistinct : List LogRecord → Type 0
IsDistinct [] = Unit
IsDistinct (r ∷ rs) = All (λ s. same_line s r ≡ false) rs × IsDistinct rs

unseen-seen :
    (seen : List LogRecord) (r : LogRecord) (rs : List LogRecord)
    → any (same_line r) seen ≡ true
    → unseen seen (r ∷ rs) ≡ unseen seen rs
unfolding unseen
unseen-seen seen r rs e = rw (e, unseen) refl

unseen-new :
    (seen : List LogRecord) (r : LogRecord) (rs : List LogRecord)
    → any (same_line r) seen ≡ false
    → unseen seen (r ∷ rs) ≡ r ∷ unseen (r ∷ seen) rs
unfolding unseen
unseen-new seen r rs e = rw (e, unseen) refl

abbrev Found : List LogRecord → List LogRecord → LogRecord → Type 0
Found seen rest r = (any (same_line r) seen || any (same_line r) rest) ≡ true

-- each line was seen or is in what is left
unseen-Found : (seen rs : List LogRecord) → All (Found seen (unseen seen rs)) rs
unseen-Found seen [] = tt
unseen-Found seen (r ∷ rs) = elim (Bool-cases (any (same_line r) seen)) [
  | inl e ↦
      subst (λ l. All (Found seen l) (r ∷ rs)) (sym (unseen-seen seen r rs e))
        (ground arith, unseen-Found seen rs)
  | inr e ↦
      subst (λ l. All (Found seen l) (r ∷ rs)) (sym (unseen-new seen r rs e))
        (
          ground (arith, same_line_self r),
          All-weaken (λ x h. ground (arith, h)) rs (unseen-Found (r ∷ seen) rs),
        )
]

abbrev IsNew : List LogRecord → LogRecord → Type 0
IsNew seen r = any (same_line r) seen ≡ false

unseen-IsDistinct :
    (seen rs : List LogRecord) → All (IsNew seen) (unseen seen rs) × IsDistinct (unseen seen rs)
unfolding unseen
unseen-IsDistinct seen [] = (tt, tt)
unseen-IsDistinct seen (r ∷ rs) = elim (Bool-cases (any (same_line r) seen)) [
  | inl e ↦
      subst (λ l. All (IsNew seen) l × IsDistinct l) (sym (unseen-seen seen r rs e))
        (unseen-IsDistinct seen rs)
  | inr e ↦
      let (fresh, distinct) = unseen-IsDistinct (r ∷ seen) rs in
      subst (λ l. All (IsNew seen) l × IsDistinct l) (sym (unseen-new seen r rs e))
        (
          (e, All-weaken (λ x h. ground (arith, h)) (unseen (r ∷ seen) rs) fresh),
          (All-weaken (λ x h. ground (arith, h)) (unseen (r ∷ seen) rs) fresh, distinct),
        )
]

unseen-le : (seen rs : List LogRecord) → length (unseen seen rs) ≤ length rs
unfolding unseen
unseen-le seen [] = omega arith
unseen-le seen (r ∷ rs) = elim (Bool-cases (any (same_line r) seen)) [
  | inl e ↦ omega (arith, ap length (unseen-seen seen r rs e), unseen-le seen rs)
  | inr e ↦ omega (arith, ap length (unseen-new seen r rs e), unseen-le (r ∷ seen) rs)
]

keep-le : (p : LogRecord → Bool) (rs : List LogRecord) → length (keep p rs) ≤ length rs
keep-le p rs = omega (arith, length-keep p rs, count_if-le-length p rs)

keep-all : (rs : List LogRecord) → keep (λ r. true) rs ≡ rs
keep-all [] = refl
keep-all (r ∷ rs) = ap (λ l. r ∷ l) (keep-all rs)

keep-same :
    (p q : LogRecord → Bool) (rs : List LogRecord)
    → ((r : LogRecord) → p r ≡ q r)
    → keep p rs ≡ keep q rs
keep-same p q [] h = refl
keep-same p q (r ∷ rs) h = ground (arith, h r, keep-same p q rs h)

keep-keep :
    (p q : LogRecord → Bool) (rs : List LogRecord) → keep p (keep q rs) ≡ keep (λ r. q r && p r) rs
keep-keep p q [] = refl
keep-keep p q (r ∷ rs) = ground (arith, keep-keep p q rs)

-- whether a line is about the subject; every line is where no subject, or an empty one, is given
abbrev pub on_subject : Option String → LogRecord → Bool
on_subject none r = true
on_subject (some subject) r = is_empty subject || contains subject r.text

-- a line that the shaping keeps: no rule accounts for it, and it is about the subject
abbrev pub wanted : List NoiseRule → Option String → Bool → LogRecord → Bool
wanted rules subject drop_noise r =
    (if drop_noise then not (any (λ rule. matches rule r) rules) else true) && on_subject subject r

filter_to_subject-eq :
    (rs : List LogRecord) (subject : Option String)
    → filter_to_subject rs subject ≡ keep (on_subject subject) rs
unfolding filter_to_subject
filter_to_subject-eq rs none = sym (keep-all rs)
filter_to_subject-eq rs (some subject) = elim (Bool-cases (is_empty subject)) [
  | inl e ↦
      ap (λ b. if b then rs else keep (about subject) rs) e
      ∙ sym (keep-all rs)
      ∙ keep-same (λ r. true) (on_subject (some subject)) rs (λ r. ground arith)
  | inr e ↦
      ap (λ b. if b then rs else keep (about subject) rs) e
      ∙ keep-same (about subject) (on_subject (some subject)) rs (λ r. ground arith)
]

denoised-eq :
    (drop_noise : Bool) (rules : List NoiseRule) (rs : List LogRecord)
    → (denoised drop_noise rules rs).0
      ≡ keep (λ r. if drop_noise then not (any (λ rule. matches rule r) rules) else true) rs
unfolding drop_collector_noise
denoised-eq true rules rs = refl
denoised-eq false rules rs = sym (keep-all rs)

-- The counts of a shaped window add up: what came in is what is kept and what was removed.
abbrev pub IsCounted : ShapedWindow → Type 0
IsCounted w =
    w.total_in
    ≡ length w.records + w.duplicates_removed + w.collector_noise_removed + w.unrelated_removed

-- Shaping a window keeps exactly those lines, in their order, that no noise rule accounts for (where
-- noise is dropped) and that are about the subject, of a list in which each line of the input stands
-- once; and the counts add up to the number of lines that came in.
pub shape_window-records :
    (rules : List NoiseRule) (records : List LogRecord) (subject : Option String)
    (drop_noise : Bool)
    → ((shape_window rules records subject drop_noise).records
        ≡ keep (wanted rules subject drop_noise) (dedupe records))
      × IsDistinct (dedupe records)
      × All (λ r. any (same_line r) (dedupe records) ≡ true) records
      × IsCounted (shape_window rules records subject drop_noise)
unfolding shape_window dedupe
shape_window-records rules records subject drop_noise =
    let noiseless = denoised-eq drop_noise rules (dedupe records) in
    let narrowed = filter_to_subject-eq (denoised drop_noise rules (dedupe records)).0 subject in
    (
      narrowed ∙ ap (keep (on_subject subject)) noiseless ∙ keep-keep _ _ (dedupe records),
      (unseen-IsDistinct [] records).1,
      unseen-Found [] records,
      omega (
        arith,
        unseen-le [] records,
        ap length narrowed,
        ap length noiseless,
        keep-le (λ r. if drop_noise then not (any (λ rule. matches rule r) rules) else true)
            (dedupe records),
        keep-le (on_subject subject) (denoised drop_noise rules (dedupe records)).0,
      ),
    )
