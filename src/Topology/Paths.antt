-- ===== src/Topology/Paths.antt =====
-- graph_snapshot.py: a path between two devices over the adjacencies that are up, breadth first.
pub mod Trace
pub mod Found
use ai_ops.Prelude.{
  ℕ, zero, suc, String, Bool, true, false, not, Option, none, some, List, [], ◌∷◌, ◌++◌, length,
  str_eq, if◌then◌else◌, ◌&&◌,
}
use mathlib.Core.List.{reverse}
use ai_ops.Topology.{
  GraphEdge, GraphSnapshot, is_complete, has, node_names, ends_known, adjacency, sorted,
}
use ai_ops.Topology.Search.{Explorer, loop}

pub data PathStatus : Type 0 where
  unknown_subject found incomplete not_found : PathStatus

pub record PathResult : Type 0 where
  pub status : PathStatus
  pub source : String
  pub destination : String
  pub path : List String
  pub source_evidence_keys : List String
  pub limitations : List String

-- an entry of `predecessors`
abbrev pub Predecessor : Type 0
Predecessor = String × Option String

-- the search for a destination: the frontier is a queue, and each device notes where it was met
abbrev pub pathfinder : (String → String → Bool) → List GraphEdge → String → Explorer Predecessor
pathfinder text_leb edges destination = record {
  name = λ e. e.0;
  make = λ current neighbor. (neighbor, some current);
  push = λ frontier n. frontier ++ n ∷ [];
  next = λ current. sorted text_leb (adjacency edges current);
  stop = λ current. str_eq current destination;
}

-- `predecessors[name]`, none where there is no entry
unfoldable pub met_at : List Predecessor → String → Option (Option String)
met_at [] n = none
met_at ((m, p) ∷ es) n = let rest = met_at es n in if str_eq n m then some p else rest

abbrev pub onward : String → Option (List String) → Option (List String)
onward n none = none
onward n (some path) = some (n ∷ path)

-- the loop from the destination back to the source, which gathers the path from its end; `none` is a
-- missing entry or a lack of fuel
unfoldable pub trace : ℕ → List Predecessor → String → Option (List String)
unfolding met_at
trace zero es n = none
trace (suc fuel) es n = elim (met_at es n) [
  | none ↦ none
  | some none ↦ some (n ∷ [])
  | some (some p) ↦ onward n (trace fuel es p)
]

abbrev pub path_result :
    GraphSnapshot → String → String → PathStatus → List String → List String → PathResult
path_result s source destination status path limitations = record {
  status = status;
  source = source;
  destination = destination;
  path = path;
  source_evidence_keys = s.source_evidence_keys;
  limitations = limitations;
}

abbrev or_incomplete : List String → List String
or_incomplete [] = "graph evidence coverage is incomplete" ∷ []
or_incomplete (l ∷ ls) = l ∷ ls

-- the answer where the search did not meet the destination
abbrev pub no_path : GraphSnapshot → String → String → PathResult
no_path s source destination =
    if is_complete s.coverage
    then path_result s source destination not_found [] s.limitations
    else path_result s source destination incomplete [] (or_incomplete s.limitations)

abbrev pub answer : GraphSnapshot → String → String → List Predecessor → Option PathResult
answer s source destination predecessors = elim (met_at predecessors destination) [
  | none ↦ some (no_path s source destination)
  | some p ↦ elim (trace (length predecessors) predecessors destination) [
    | none ↦ none
    | some path ↦ some (path_result s source destination found (reverse path) s.limitations)
  ]
]

-- a device enters the queue once, so their number is fuel enough
unfoldable pub path_between :
    (String → String → Bool) → GraphSnapshot → String → String → Option PathResult
unfolding loop node_names ends_known met_at trace
path_between text_leb s source destination =
    let names = node_names s.graph in
    let edges = s.graph.edges in
    if has names source && has names destination
    then (if ends_known names edges
        then (elim (loop (pathfinder text_leb edges destination) (length names)
            ((source, none) ∷ []) (source ∷ [])) [
              | none ↦ none
              | some predecessors ↦ answer s source destination predecessors
            ])
        else none)
    else some (
        path_result s source destination unknown_subject []
          ("one or both path endpoints are absent from the derived graph" ∷ []))
