-- ===== src/Health/Apply.antt =====
-- health.py: what `apply_silences` changes of a verdict and what it keeps.
use ai_ops.Prelude.{
  ℕ, ◌+◌, ◌≤◌, ◌≡◌, refl, sym, ap, ◌∙◌, Bool, true, false, ◌&&◌, Option, none, some, List, [], ◌∷◌,
  ◌++◌, map, String, All, length, keep, count_if, arith, ltb, if◌then◌else◌,
}
use mathlib.Core.List.{append_assoc, append-nil}
use ai_ops.Health.{
  Severity, okay, info, warning, unreachable, critical, severity_rank, max_severity, Silence,
  find_silence, HealthFinding, Verdict, Tagged, Counts, Tally, no_tally, tag, tag_all, count,
  apply_silences, tagged_loud,
}

abbrev pub is_none : Option Silence → Bool
is_none none = true
is_none (some s) = false

-- the worst severity of some findings
unfoldable pub worst : List HealthFinding → Severity
unfolding max_severity
worst [] = okay
worst (f ∷ fs) = max_severity f.severity (worst fs)

max_severity-okay : (a : Severity) → max_severity okay a ≡ a
unfolding max_severity severity_rank
max_severity-okay okay = refl
max_severity-okay info = refl
max_severity-okay warning = refl
max_severity-okay unreachable = refl
max_severity-okay critical = refl

max_severity-at_okay : (a : Severity) → max_severity a okay ≡ a
unfolding max_severity severity_rank
max_severity-at_okay a = ground arith

tag-new_findings :
    (f : HealthFinding) (s : Option Silence) (t : Tally)
    → (tag f s t).new_findings ≡ t.new_findings ++ record { finding = f; silence = s } ∷ []
unfolding tag tagged_loud
tag-new_findings f none t = refl
tag-new_findings f (some s) t = refl

max_severity_rank : (a b : Severity) → severity_rank a ≤ severity_rank (max_severity a b)
unfolding max_severity
max_severity_rank a b = ground arith

severity_rank-injective : (a b : Severity) → severity_rank a ≡ severity_rank b → a ≡ b
unfolding severity_rank
severity_rank-injective a b h = ground arith

max_severity_assoc :
    (a b c : Severity) → max_severity (max_severity a b) c ≡ max_severity a (max_severity b c)
unfolding max_severity
max_severity_assoc a b c = ground arith

worst-append-le :
    (p : HealthFinding → Bool) (fs : List HealthFinding)
    → severity_rank (worst (keep p fs)) ≤ severity_rank (worst fs)
unfolding worst max_severity
worst-append-le p [] = omega arith
worst-append-le p (f ∷ fs) = ground (arith, worst-append-le p fs)

worst-bounds :
    (fs : List HealthFinding) (n : ℕ)
    → severity_rank (worst fs) ≤ n
    → All (λ f. severity_rank f.severity ≤ n) fs
unfolding worst max_severity
worst-bounds [] n h = tt
worst-bounds (f ∷ fs) n h = (ground arith, worst-bounds fs n (ground arith))

-- the entry of `counts` for a severity
abbrev pub counted : Severity → Counts → ℕ
counted okay c = 0
counted info c = c.info_count
counted warning c = c.warning_count
counted unreachable c = c.unreachable_count
counted critical c = c.critical_count

abbrev same_severity : Severity → Severity → Bool
same_severity okay okay = true
same_severity info info = true
same_severity warning warning = true
same_severity unreachable unreachable = true
same_severity critical critical = true
same_severity _ _ = false

-- whether it has this severity, which is not `ok`
abbrev pub has_severity : Severity → HealthFinding → Bool
has_severity okay f = false
has_severity info f = same_severity info f.severity
has_severity warning f = same_severity warning f.severity
has_severity unreachable f = same_severity unreachable f.severity
has_severity critical f = same_severity critical f.severity

counted-count :
    (c : Severity) (f : HealthFinding) (n : Counts)
    → counted c (count f.severity n) ≡ counted c n + (if has_severity c f then 1 else 0)
counted-count c f n = ground arith

silenced-count : (a : Severity) (n : Counts) → (count a n).silenced ≡ n.silenced
silenced-count a n = ground arith

tag-severity :
    (f : HealthFinding) (s : Option Silence) (t : Tally)
    → (tag f s t).severity ≡ (if is_none s then max_severity t.severity f.severity else t.severity)
unfolding tag tagged_loud
tag-severity f none t = refl
tag-severity f (some s) t = refl

tag-counted :
    (c : Severity) (f : HealthFinding) (s : Option Silence) (t : Tally)
    → counted c (tag f s t).counts
      ≡ counted c t.counts + (if is_none s && has_severity c f then 1 else 0)
unfolding tag tagged_loud
tag-counted c f none t = counted-count c f t.counts
tag-counted c f (some s) t = ground arith

tag-silenced :
    (f : HealthFinding) (s : Option Silence) (t : Tally)
    → (tag f s t).counts.silenced ≡ t.counts.silenced + (if is_none s then 0 else 1)
unfolding tag tagged_loud
tag-silenced f none t = ground (arith, silenced-count f.severity t.counts)
tag-silenced f (some s) t = ground arith

-- the findings that no silence covers, and the tags of all
module _ (silences : List Silence) (device : String) (now : ℕ) where
  abbrev pub covering : HealthFinding → Option Silence
  covering f = find_silence silences device f.rule f.subject now

  abbrev pub loud : HealthFinding → Bool
  loud f = is_none (covering f)

  abbrev pub tagged : HealthFinding → Tagged
  tagged f = record { finding = f; silence = covering f }

  tag_all-new_findings :
      (fs : List HealthFinding) (t : Tally)
      → (tag_all silences device now fs t).new_findings ≡ t.new_findings ++ map tagged fs
  unfolding tag_all
  tag_all-new_findings [] t = sym (append-nil t.new_findings)
  tag_all-new_findings (f ∷ fs) t =
      tag_all-new_findings fs (tag f (covering f) t)
      ∙ ap (λ xs. xs ++ map tagged fs) (tag-new_findings f (covering f) t)
      ∙ append_assoc t.new_findings (tagged f ∷ []) (map tagged fs)

  tag_all-severity :
      (fs : List HealthFinding) (t : Tally)
      → (tag_all silences device now fs t).severity ≡ max_severity t.severity (worst (keep loud fs))
  unfolding tag_all worst
  tag_all-severity [] t = sym (max_severity-at_okay t.severity)
  tag_all-severity (f ∷ fs) t =
      let rest = tag_all-severity fs (tag f (covering f) t) in
      let here = tag-severity f (covering f) t in
      let assoc = max_severity_assoc t.severity f.severity (worst (keep loud fs)) in
      rest ∙ ap (λ a. max_severity a (worst (keep loud fs))) here ∙ joined (loud f) assoc
    where
      joined :
          (b : Bool)
          → max_severity (max_severity t.severity f.severity) (worst (keep loud fs))
            ≡ max_severity t.severity (max_severity f.severity (worst (keep loud fs)))
          → max_severity
              (if b then max_severity t.severity f.severity else t.severity)
              (worst (keep loud fs))
            ≡ max_severity t.severity (worst (if b then f ∷ keep loud fs else keep loud fs))
      joined true assoc = assoc
      joined false assoc = refl

  tag_all-counted :
      (c : Severity) (fs : List HealthFinding) (t : Tally)
      → counted c (tag_all silences device now fs t).counts
        ≡ counted c t.counts + count_if (has_severity c) (keep loud fs)
  unfolding tag_all
  tag_all-counted c [] t = omega arith
  tag_all-counted c (f ∷ fs) t =
      let rest = tag_all-counted c fs (tag f (covering f) t) in
      let here = tag-counted c f (covering f) t in ground arith

  tag_all-silenced :
      (fs : List HealthFinding) (t : Tally)
      → (tag_all silences device now fs t).counts.silenced + length (keep loud fs)
        ≡ t.counts.silenced + length fs
  unfolding tag_all
  tag_all-silenced [] t = omega arith
  tag_all-silenced (f ∷ fs) t =
      let rest = tag_all-silenced fs (tag f (covering f) t) in
      let here = tag-silenced f (covering f) t in ground arith

-- Silencing drops, adds and reorders no finding: each is kept whole, tagged with the silence that
-- `find_silence` gives for it, and the severity before silencing is kept beside the new one.
pub apply_silences-findings :
    (v : Verdict) (silences : List Silence) (now : ℕ)
    → ((apply_silences v silences now).findings ≡ map (tagged silences v.device now) v.findings)
      × ((apply_silences v silences now).raw_severity ≡ v.severity)
unfolding apply_silences
apply_silences-findings v silences now =
    (tag_all-new_findings silences v.device now v.findings no_tally, refl)

-- The new severity is the worst of the findings that no silence covers, so no such finding is
-- worse than it, and it is never worse than the worst of all the findings.
pub apply_silences-severity :
    (v : Verdict) (silences : List Silence) (now : ℕ)
    → ((apply_silences v silences now).severity
        ≡ worst (keep (loud silences v.device now) v.findings))
      × All
          (λ f. severity_rank f.severity ≤ severity_rank (apply_silences v silences now).severity)
          (keep (loud silences v.device now) v.findings)
      × (severity_rank (apply_silences v silences now).severity ≤ severity_rank (worst v.findings))
unfolding apply_silences
apply_silences-severity v silences now =
    let kept = keep (loud silences v.device now) v.findings in
    let e : (apply_silences v silences now).severity ≡ worst kept =
      tag_all-severity silences v.device now v.findings no_tally ∙ max_severity-okay (worst kept) in
    let bound = worst-append-le (loud silences v.device now) v.findings in
    (
      e,
      worst-bounds kept (severity_rank (apply_silences v silences now).severity)
          (ground (arith, ap severity_rank e)),
      ground (arith, ap severity_rank e),
    )

-- Each count is the number of findings of that severity that no silence covers, and the silenced
-- ones are all the others; `silences_applied` is whether there is one.
apply_silences-counts :
    (v : Verdict) (silences : List Silence) (now : ℕ) (c : Severity)
    → (counted c (apply_silences v silences now).counts
        ≡ count_if (has_severity c) (keep (loud silences v.device now) v.findings))
      × ((apply_silences v silences now).counts.silenced
            + length (keep (loud silences v.device now) v.findings)
          ≡ length v.findings)
      × ((apply_silences v silences now).silences_applied
          ≡ ltb 0 (apply_silences v silences now).counts.silenced)
unfolding apply_silences
apply_silences-counts v silences now c =
    let each = tag_all-counted silences v.device now c v.findings no_tally in
    let all_of = tag_all-silenced silences v.device now v.findings no_tally in
    (ground arith, ground arith, refl)
