-- ===== src/Topology/Paths/Found.antt =====
-- A path is found exactly if there is one.
use ai_ops.Prelude.{
  ℕ, ◌≡◌, ◌⊎◌, inl, inr, refl, sym, ap, ◌∙◌, String, Bool, true, false, ◌||◌, Option, none, some,
  List, [], ◌∷◌, ◌++◌, any, length, str_eq, eq_iff, eq_refl, arith, Bool-cases, if◌then◌else◌,
  length-append,
}
use mathlib.Core.List.{reverse}
use ai_ops.Topology.{
  GraphEdge, GraphSnapshot, is_complete, has, has-sorted, has-append, all-sorted, sorted,
  node_names, ends_known, adjacency, has-adjacency, joins, Reaches, here, along,
}
use ai_ops.Topology.Search.{loop}
use ai_ops.Topology.Search.Ends.{IsExplorer, open_names-start, loop_ends}
use ai_ops.Topology.Search.Found.{IsFront, IsThrough, loop-IsThrough}
use ai_ops.Topology.Search.Keeps.{loop-Keeps}
use ai_ops.Topology.Impact.Connected.{adjacency-known}
use ai_ops.Topology.Paths.{
  PathResult, found, not_found, incomplete, Predecessor, pathfinder, met_at, answer, no_path,
  path_result, path_between,
}
use ai_ops.Topology.Paths.Trace.{
  Walk, is_met, IsTrail, first, later, trace_walks, met_at-head, met_at-tail,
}

has-queue : (q : List String) (n m : String) → has (q ++ n ∷ []) m ≡ (str_eq m n || has q m)
has-queue q n m = ground (arith, has-append q (n ∷ []) m)

pathfinder-IsExplorer :
    (text_leb : String → String → Bool) (edges : List GraphEdge) (destination : String)
    → IsExplorer (pathfinder text_leb edges destination)
pathfinder-IsExplorer text_leb edges destination = record {
  make_lem = λ a b. refl;
  length-push = λ q n. omega (arith, length-append q (n ∷ []));
  has-push = has-queue;
}

both : (b : Bool) → b ≡ false → b ≡ true → ⊥
both b left right = ground arith

-- a search that ended from a source
module _ (text_leb : String → String → Bool) (edges : List GraphEdge) (source destination : String)
    (fuel : ℕ) (es : List Predecessor)
    (ended : loop (pathfinder text_leb edges destination) fuel ((source, none) ∷ []) (source ∷ [])
      ≡ some es) where
  start-IsFront :
      IsFront
        (pathfinder text_leb edges destination)
        (pathfinder-IsExplorer text_leb edges destination)
        ((source, none) ∷ [])
        (source ∷ [])
  unfolding IsFront
  start-IsFront m = (λ h. h, λ h. inl h)

  neighbours :
      (a b : String) → has (sorted text_leb (adjacency edges a)) b ≡ any (λ e. joins e a b) edges
  neighbours a b = has-sorted text_leb b (adjacency edges a) ∙ has-adjacency edges a b

  es-IsTrail : IsTrail edges source es
  es-IsTrail =
      loop-Keeps (pathfinder text_leb edges destination)
        (pathfinder-IsExplorer text_leb edges destination) (IsTrail edges source)
        (λ seen current n trail there adjacent new.
          later n current trail there (sym (neighbours current n) ∙ adjacent) new)
        fuel ((source, none) ∷ []) (source ∷ []) start-IsFront first ended

  through :
      IsThrough
        (pathfinder text_leb edges destination)
        (pathfinder-IsExplorer text_leb edges destination)
        es
      × ((m : String) → is_met ((source, none) ∷ []) m ≡ true → is_met es m ≡ true)
  through =
      loop-IsThrough (pathfinder text_leb edges destination)
        (pathfinder-IsExplorer text_leb edges destination) fuel ((source, none) ∷ []) (source ∷ [])
        start-IsFront ended

  reached :
      ((m k : String)
        → is_met es m ≡ true
        → has (sorted text_leb (adjacency edges m)) k ≡ true
        → is_met es k ≡ true)
      → (m : String) → Reaches edges source m
      → is_met es m ≡ true
  reached closed m here = through.1 source (ap (λ b. b || false) (eq_refl source))
  reached closed m (along {a = a} r joined) =
      closed a m (reached closed a r) (neighbours a m ∙ joined)

  -- where the destination was not noted, no path reaches it
  unmet : is_met es destination ≡ false → ¬ Reaches edges source destination
  unfolding IsThrough
  unmet no_met r = elim (through.0) [
    | inl (m, stopped, there) ↦
        both (is_met es destination) no_met
          (sym (ap (is_met es) ((eq_iff m destination).0 stopped)) ∙ there)
    | inr closed ↦ both (is_met es destination) no_met (reached closed destination r)
  ]

met-cases :
    (es : List Predecessor) (n : String)
    → ((met_at es n ≡ none) × (is_met es n ≡ false))
      ⊎ ((p : Option String) × (met_at es n ≡ some p) × (is_met es n ≡ true))
unfolding met_at
met-cases [] n = inl (refl, refl)
met-cases ((m, p) ∷ es) n = elim (Bool-cases (str_eq n m)) [
  | inl e ↦ inr (p, met_at-head m p es n e, ground arith)
  | inr e ↦ elim (met-cases es n) [
    | inl (not_met, away) ↦ inl (met_at-tail m p es n e ∙ not_met, ground arith)
    | inr (q, met, there) ↦ inr (q, met_at-tail m p es n e ∙ met, ground arith)
  ]
]

-- what the answer says: a walk from the source to the destination, or that there is none
pub record Finds (s : GraphSnapshot) (source destination : String) (r : PathResult) : Type 0 where
  pub path_or_none :
      ((r.status ≡ found) × Walk s.graph.edges source destination r.path)
      ⊎ ((r.status ≡ (if is_complete s.coverage then not_found else incomplete))
          × (r.path ≡ [])
          × ¬ Reaches s.graph.edges source destination)

no_path-says :
    (s : GraphSnapshot) (source destination : String)
    → ¬ Reaches s.graph.edges source destination
    → (((no_path s source destination).status ≡ found)
        × Walk s.graph.edges source destination (no_path s source destination).path)
      ⊎ (((no_path s source destination).status
            ≡ (if is_complete s.coverage then not_found else incomplete))
          × ((no_path s source destination).path ≡ [])
          × ¬ Reaches s.graph.edges source destination)
no_path-says s source destination unreached = elim (Bool-cases (is_complete s.coverage)) [
  | inl e ↦ inr (rw e refl, rw e refl, unreached)
  | inr e ↦ inr (rw e refl, rw e refl, unreached)
]

answer-Finds :
    (s : GraphSnapshot) (source destination : String) (es : List Predecessor)
    → IsTrail s.graph.edges source es
    → (is_met es destination ≡ false → ¬ Reaches s.graph.edges source destination)
    → (r : PathResult) × (answer s source destination es ≡ some r) × Finds s source destination r
answer-Finds s source destination es trail unreached = elim (met-cases es destination) [
  | inl (e, none_met) ↦ (
    no_path s source destination,
    rw (e, answer) refl,
    record { path_or_none = no_path-says s source destination (unreached none_met) },
  )
  | inr (p, e, there) ↦
      let (path, traced, walk) =
        trace_walks s.graph.edges source (length es) es destination (omega arith) trail there in
      (
        path_result s source destination found (reverse path) s.limitations,
        rw (e, traced, answer) refl,
        record { path_or_none = inl (refl, walk) },
      )
]

-- Between two nodes of a snapshot whose adjacencies join nodes, the search ends: it gives a path of
-- adjacencies that are up from the source to the destination if there is one; otherwise the path
-- is empty, and it is called not found where the coverage is complete and incomplete where not.
pub path_between-Finds :
    (text_leb : String → String → Bool) (s : GraphSnapshot) (source destination : String)
    → has (node_names s.graph) source ≡ true
    → has (node_names s.graph) destination ≡ true
    → ends_known (node_names s.graph) s.graph.edges ≡ true
    → (r : PathResult) × (path_between text_leb s source destination ≡ some r)
      × Finds s source destination r
unfolding path_between
path_between-Finds text_leb s source destination known_source known_destination ends =
    let names = node_names s.graph in
    let edges = s.graph.edges in
    let x = pathfinder text_leb edges destination in
    let (es, ended) =
      loop_ends x (pathfinder-IsExplorer text_leb edges destination) names
        (λ current.
          all-sorted text_leb (has names) (adjacency edges current)
          ∙ adjacency-known names edges current ends)
        (length names) ((source, none) ∷ []) (source ∷ [])
        (open_names-start x (pathfinder-IsExplorer text_leb edges destination) names (source, none)
          known_source) in
    let (r, answered, finds) =
      answer-Finds s source destination es
        (es-IsTrail text_leb edges source destination (length names) es ended)
        (unmet text_leb edges source destination (length names) es ended) in
    (r, rw (known_source, known_destination, ends, ended, path_between) answered, finds)
