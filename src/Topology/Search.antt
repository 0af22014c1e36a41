-- ===== src/Topology/Search.antt =====
-- impact.py and graph_snapshot.py: the `while frontier` loop that both run over the adjacency. They
-- differ in what they note of a device (`make current neighbor`), in the end of the frontier they
-- take from, which `push` fixes, and in whether they stop at a device. `none` is a lack of fuel.
pub mod Ends
pub mod Found
pub mod Keeps
use ai_ops.Prelude.{
  ℕ, zero, suc, String, Bool, true, false, Option, none, some, List, [], ◌∷◌, ◌++◌, str_eq, any,
}

pub record Explorer (E : Type 0) : Type 0 where
  pub name : E → String
  pub make : String → String → E
  pub push : List String → String → List String
  pub next : String → List String
  pub stop : String → Bool

module _ {E : Type 0} (x : Explorer E) where
  abbrev pub noted : List E → String → Bool
  noted seen n = any (λ e. str_eq n (x.name e)) seen

  -- the loop over the neighbours of `current`: the new ones are noted and queued
  unfoldable pub scan : String → List String → List E → List String → List E × List String
  scan current [] seen frontier = (seen, frontier)
  scan current (n ∷ ns) seen frontier = elim (noted seen n) [
    | true ↦ scan current ns seen frontier
    | false ↦ scan current ns (x.make current n ∷ seen) (x.push frontier n)
  ]

  unfoldable pub loop : ℕ → List E → List String → Option (List E)
  unfolding scan
  loop fuel seen [] = some seen
  loop zero seen (current ∷ frontier) = none
  loop (suc fuel) seen (current ∷ frontier) = elim (x.stop current) [
    | true ↦ some seen
    | false ↦
        let (seen_after, queue) = scan current (x.next current) seen frontier in
        loop fuel seen_after queue
  ]
