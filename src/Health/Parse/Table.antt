-- ===== src/Health/Parse/Table.antt =====
-- health.py: what holds of a table of silences that was loaded.
use ai_ops.Prelude.{
  ℕ, suc, ◌≡◌, refl, sym, ap, ◌∙◌, String, true, false, Option, none, some, List, [], ◌∷◌, length,
  arith, subst,
}
use ai_ops.Result.{Moment}
use ai_ops.Health.{Silence}
use ai_ops.Health.Parse.{
  Mapping, Loaded, loaded, problem, ◌>>=◌, before, is_seen, parse_mapping, parse_entry,
  parse_entries, parse_silences,
}

parse_mapping_inv :
    (from_iso : String → Option Moment) (index : ℕ) (seen : List String) (m : Mapping) {s : Silence}
    → parse_mapping from_iso index seen m ≡ loaded s
    → (is_seen s.id seen ≡ false) × (before s.starts_at s.expires_at ≡ true)
unfolding parse_mapping
parse_mapping_inv from_iso index seen m h = ground arith

-- the ids are new, each after those before it, and every window starts before it ends
abbrev AreFine : List String → List Silence → Type 0
AreFine seen [] = Unit
AreFine seen (s ∷ ss) =
    (is_seen s.id seen ≡ false)
    × (before s.starts_at s.expires_at ≡ true)
    × AreFine (s.id ∷ seen) ss

parse_entry_inv :
    (from_iso : String → Option Moment) (index : ℕ) (seen : List String) (e : Option Mapping)
    {s : Silence}
    → parse_entry from_iso index seen e ≡ loaded s
    → (is_seen s.id seen ≡ false) × (before s.starts_at s.expires_at ≡ true)
parse_entry_inv from_iso index seen none h = ground arith
parse_entry_inv from_iso index seen (some m) h = parse_mapping_inv from_iso index seen m h

more_inv :
    (s : Silence) (y : Loaded (List Silence)) {ss : List Silence}
    → (y >>= (λ more. loaded (s ∷ more))) ≡ loaded ss
    → (more : List Silence) × (y ≡ loaded more) × (ss ≡ s ∷ more)
more_inv s (problem p) h = ground arith
more_inv s (loaded more) h = (more, refl, ground arith)

both_inv :
    (x : Loaded Silence) (rest : Silence → Loaded (List Silence)) {ss : List Silence}
    → (x >>= (λ s. rest s >>= (λ more. loaded (s ∷ more)))) ≡ loaded ss
    → (s : Silence) × (more : List Silence) × (x ≡ loaded s)
      × (rest s ≡ loaded more)
      × (ss ≡ s ∷ more)
both_inv (problem p) rest h = ground arith
both_inv (loaded s) rest {ss} h =
    let (more, found, all_of) = more_inv s (rest s) h in (s, more, refl, found, all_of)

parse_entries-AreFine :
    (from_iso : String → Option Moment) (index : ℕ) (seen : List String)
    (es : List (Option Mapping)) {ss : List Silence}
    → parse_entries from_iso index seen es ≡ loaded ss
    → AreFine seen ss × (length ss ≡ length es)
unfolding parse_entries
parse_entries-AreFine from_iso index seen [] {ss} h =
    let none_loaded : ss ≡ [] = ground arith in
    (subst (AreFine seen) (sym none_loaded) tt, ap length none_loaded)
parse_entries-AreFine from_iso index seen (e ∷ es) {ss} h =
    let (s, more, first, others, all_of) =
      both_inv (parse_entry from_iso index seen e)
        (λ s. parse_entries from_iso (suc index) (s.id ∷ seen) es) h in
    let (fresh, window) = parse_entry_inv from_iso index seen e first in
    let (fine, count) = parse_entries-AreFine from_iso (suc index) (s.id ∷ seen) es others in
    (subst (AreFine seen) (sym all_of) (fresh, window, fine), ap length all_of ∙ ap suc count)

-- A silence file that loads gives one silence for each of its entries; no two have one id, and
-- each window starts before it ends.
parse_silences-AreFine :
    (from_iso : String → Option Moment) (entries : List (Option Mapping)) {ss : List Silence}
    → parse_silences from_iso (some entries) ≡ loaded ss
    → AreFine [] ss × (length ss ≡ length entries)
unfolding parse_silences
parse_silences-AreFine from_iso entries h = parse_entries-AreFine from_iso 0 [] entries h
