-- ===== src/Topology/Search/Keeps.antt =====
-- An invariant of the notes of the search, which each new note keeps.
use ai_ops.Prelude.{
  some-injective, ℕ, zero, suc, ◌≡◌, ap, subst, String, true, false, ◌||◌, some, List, [], ◌∷◌,
  eq_refl, arith, Bool-cases, inl, inr,
}
use ai_ops.Topology.{has}
use ai_ops.Topology.Search.{Explorer, noted, scan, loop}
use ai_ops.Topology.Search.Ends.{IsExplorer}
use ai_ops.Topology.Search.Found.{IsFront, scan-IsFront}

module _ {E : Type 0} (x : Explorer E) (laws : IsExplorer x) (Q : List E → Type 0)
    (keeps : (seen : List E) (current n : String)
      → Q seen
      → noted x seen current ≡ true
      → has (x.next current) n ≡ true
      → noted x seen n ≡ false
      → Q (x.make current n ∷ seen)) where
  scan-Keeps :
      (current : String) (ns : List String) (seen : List E) (frontier : List String)
      → ((n : String) → has ns n ≡ true → has (x.next current) n ≡ true)
      → noted x seen current ≡ true
      → Q seen
      → Q (scan x current ns seen frontier).0
  unfolding scan
  scan-Keeps current [] seen frontier among there q = q
  scan-Keeps current (n ∷ ns) seen frontier among there q = elim (Bool-cases (noted x seen n)) [
    | inl old ↦
        rw (old, scan) (scan-Keeps current ns seen frontier (λ k h. among k (ground arith)) there q)
    | inr new ↦
        rw (new, scan)
          (scan-Keeps current ns (x.make current n ∷ seen) (x.push frontier n)
            (λ k h. among k (ground arith)) (ground arith)
            (keeps seen current n q there (among n (ap (λ b. b || has ns n) (eq_refl n))) new))
  ]

  pub loop-Keeps :
      (fuel : ℕ) (seen : List E) (frontier : List String) {found : List E}
      → IsFront x laws seen frontier
      → Q seen
      → loop x fuel seen frontier ≡ some found
      → Q found
  unfolding loop IsFront
  loop-Keeps fuel seen [] {found} front q h = subst Q (some-injective h) q
  loop-Keeps zero seen (current ∷ frontier) front q h = absurd (ground arith)
  loop-Keeps (suc fuel) seen (current ∷ frontier) {found} front q h =
      elim (Bool-cases (x.stop current)) [
        | inl last ↦ subst Q (some-injective (rw (last, loop) at h)) q
        | inr more ↦
            let at_current : noted x seen current ≡ true =
              (front current).0 (ap (λ b. b || has frontier current) (eq_refl current)) in
            loop-Keeps fuel (scan x current (x.next current) seen frontier).0
              (scan x current (x.next current) seen frontier).1
              (scan-IsFront x laws current seen frontier front)
              (scan-Keeps current (x.next current) seen frontier (λ n h. h) at_current q)
              (rw (more, loop) at h)
      ]
