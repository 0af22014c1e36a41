-- ===== src/Topology/Search/Ends.antt =====
-- The search ends: each round takes one device from the frontier, and each device enters it once.
use ai_ops.Prelude.{
  ℕ, zero, suc, ◌+◌, ◌≤◌, ◌<◌, ◌≡◌, refl, ap, ◌∙◌, String, true, false, not, ◌||◌, some, List, [],
  ◌∷◌, str_eq, eq_iff, all, length, count_if, count_if-le-length, arith, Bool-cases, inl, inr,
}
use ai_ops.Topology.{has, str_eq_comm}
use ai_ops.Topology.Search.{Explorer, noted, scan, loop}

-- what the search relies on: `make` notes the neighbour, and `push` queues one device
pub record IsExplorer {E : Type 0} (x : Explorer E) : Type 0 where
  pub make_lem : (a b : String) → x.name (x.make a b) ≡ b
  pub length-push : (q : List String) (n : String) → length (x.push q n) ≡ suc (length q)
  pub has-push : (q : List String) (n m : String) → has (x.push q n) m ≡ (str_eq m n || has q m)

module _ {E : Type 0} (x : Explorer E) (laws : IsExplorer x) (names : List String) where
  -- the devices that are not noted yet
  abbrev pub open_names : List E → List String → ℕ
  open_names seen ns = count_if (λ n. not (noted x seen n)) ns

  open_names-le :
      (e : E) (seen : List E) (ns : List String) → open_names (e ∷ seen) ns ≤ open_names seen ns
  open_names-le e seen [] = omega arith
  open_names-le e seen (n ∷ ns) = ground (arith, open_names-le e seen ns)

  -- noting a device that was not noted
  open_names-lt :
      (e : E) (seen : List E) (ns : List String)
      → has ns (x.name e) ≡ true
      → noted x seen (x.name e) ≡ false
      → open_names (e ∷ seen) ns < open_names seen ns
  open_names-lt e seen [] h new = absurd (ground arith)
  open_names-lt e seen (n ∷ ns) h new = elim (Bool-cases (str_eq n (x.name e))) [
    | inl same ↦
        let here : n ≡ x.name e = (eq_iff n (x.name e)).0 same in
        let fresh : noted x seen n ≡ false = ap (noted x seen) here ∙ new in
        ground (arith, open_names-le e seen ns)
    | inr other ↦
        ground (arith, open_names-lt e seen ns (ground (arith, str_eq_comm n (x.name e))) new)
  ]

  scan-le :
      (current : String) (ns : List String) (seen : List E) (frontier : List String)
      → all (has names) ns ≡ true
      → open_names (scan x current ns seen frontier).0 names
          + length (scan x current ns seen frontier).1
        ≤ open_names seen names + length frontier
  unfolding scan
  scan-le current [] seen frontier h = omega arith
  scan-le current (n ∷ ns) seen frontier h = elim (Bool-cases (noted x seen n)) [
    | inl old ↦ rw (old, scan) (scan-le current ns seen frontier (ground arith))
    | inr new ↦
        let rest =
          scan-le current ns (x.make current n ∷ seen) (x.push frontier n) (ground arith) in
        let same = laws.make_lem current n in
        let fewer =
          open_names-lt (x.make current n) seen names (ap (has names) same ∙ ground arith)
            (ap (noted x seen) same ∙ new) in
        rw (new, scan) (omega (arith, rest, fewer, laws.length-push frontier n))
  ]

  pub loop_ends :
      ((current : String) → all (has names) (x.next current) ≡ true)
      → (fuel : ℕ) (seen : List E) (frontier : List String)
      → open_names seen names + length frontier ≤ fuel
      → (found : List E) × (loop x fuel seen frontier ≡ some found)
  unfolding loop
  loop_ends closed fuel seen [] h = (seen, refl)
  loop_ends closed zero seen (current ∷ frontier) h = absurd (omega arith)
  loop_ends closed (suc fuel) seen (current ∷ frontier) h = elim (Bool-cases (x.stop current)) [
    | inl last ↦ (seen, rw (last, loop) refl)
    | inr more ↦
        let (after, queue) = scan x current (x.next current) seen frontier in
        let less = scan-le current (x.next current) seen frontier (closed current) in
        let (found, ends) = loop_ends closed fuel after queue (omega (arith, less)) in
        (found, rw (more, loop) ends)
  ]

  -- fuel for each of the names is enough from one of them
  pub open_names-start :
      (e : E) → has names (x.name e) ≡ true → open_names (e ∷ []) names + 1 ≤ length names
  open_names-start e h =
      omega
        (arith, open_names-lt e [] names h refl, count_if-le-length (λ n. not (noted x [] n)) names)
