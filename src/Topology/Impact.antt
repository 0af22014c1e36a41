-- ===== src/Topology/Impact.antt =====
-- impact.py: which devices the adjacencies that are up still connect with a subject.
pub mod Connected
use ai_ops.Prelude.{
  ℕ, String, str_append, Bool, true, false, not, ◌&&◌, ◌||◌, Option, none, some, List, [], ◌∷◌,
  ◌++◌, any, keep, length, str_eq, if◌then◌else◌,
}
use ai_ops.Topology.{
  Graph, GraphEdge, GraphSnapshot, GraphCoverage, complete, partial, unknown, is_complete, has,
  node_names, ends_known, adjacency, sorted,
}
use ai_ops.Topology.Search.{Explorer, loop}

pub record ImpactResult : Type 0 where
  pub subject : String
  pub connected : List String
  pub disconnected : List String
  pub limitations : List String
  pub unknown : List String
  pub source_evidence_keys : List String
  pub observed_at : Option ℕ
  pub valid_until : Option ℕ
  pub coverage : Option GraphCoverage

-- the argument: a graph, or a graph with its snapshot
pub data Subject : Type 0 where
  plain : Graph → Subject
  taken : GraphSnapshot → Subject

abbrev pub graph_of : Subject → Graph
graph_of (plain g) = g
graph_of (taken s) = s.graph

abbrev pub is_plain : Subject → Bool
is_plain (plain g) = true
is_plain (taken s) = false

-- `snapshot is not None and snapshot.coverage is not GraphCoverage.COMPLETE`
abbrev pub is_partial : Subject → Bool
is_partial (plain g) = false
is_partial (taken s) = not (is_complete s.coverage)

abbrev coverage_value : GraphCoverage → String
coverage_value complete = "complete"
coverage_value partial = "partial"
coverage_value unknown = "unknown"

abbrev snapshot_limitations : Subject → List String
snapshot_limitations (plain g) = []
snapshot_limitations (taken s) =
    s.limitations
    ++ (if is_complete s.coverage
        then []
        else str_append "graph evidence coverage is " (coverage_value s.coverage) ∷ [])

unfoldable pub limitations_of : Subject → List String
limitations_of on =
    "impact covers only derived IS-IS adjacency connectivity"
    ∷ "no service, VRF, forwarding-plane, or traffic-demand impact is modeled"
    ∷ ((if any (λ (e : GraphEdge). str_eq e.protocol "isis") (graph_of on).edges
          then []
          else "no parsed IS-IS edges were available" ∷ [])
        ++ snapshot_limitations on)

-- the search for a subject: the frontier is a stack, and every device is visited
abbrev pub visitor : List GraphEdge → Explorer String
visitor edges = record {
  name = λ n. n;
  make = λ current neighbor. neighbor;
  push = λ frontier n. n ∷ frontier;
  next = adjacency edges;
  stop = λ n. false;
}

-- the result, whatever it finds, with what the snapshot says of itself
abbrev pub impact :
    Subject → String → List String → List String → List String → List String → ImpactResult
impact (plain g) subject connected disconnected limitations unsure = record {
  subject = subject;
  connected = connected;
  disconnected = disconnected;
  limitations = limitations;
  unknown = unsure;
  source_evidence_keys = [];
  observed_at = none;
  valid_until = none;
  coverage = none;
}
impact (taken s) subject connected disconnected limitations unsure = record {
  subject = subject;
  connected = connected;
  disconnected = disconnected;
  limitations = limitations;
  unknown = unsure;
  source_evidence_keys = s.source_evidence_keys;
  observed_at = some s.observed_at;
  valid_until = some s.valid_until;
  coverage = some s.coverage;
}

-- `names - visited`
abbrev pub rest_of : List String → List String → List String
rest_of names visited = keep (λ n. not (has visited n)) names

abbrev pub projected : (String → String → Bool) → Subject → String → List String → ImpactResult
projected text_leb on subject visited =
    let missing = sorted text_leb (rest_of (node_names (graph_of on)) visited) in
    impact on subject (sorted text_leb visited) (if is_partial on then [] else missing)
      (limitations_of on) (if is_partial on then missing else [])

-- a device enters the frontier once, so their number is fuel enough
unfoldable pub connectivity_impact :
    (String → String → Bool) → Subject → String → Option ImpactResult
unfolding loop node_names ends_known
connectivity_impact text_leb on subject =
    let names = node_names (graph_of on) in
    let edges = (graph_of on).edges in
    if has names subject
    then (if ends_known names edges
        then (elim (loop (visitor edges) (length names) (subject ∷ []) (subject ∷ [])) [
          | none ↦ none
          | some visited ↦ some (projected text_leb on subject visited)
        ])
        else none)
    else some (impact on subject [] [] ("subject is absent from the derived graph" ∷ []) [])
