-- ===== src/Tests/Graphs.antt =====
-- A small fabric, with a device that is cut off.
use ai_ops.Topology.{adjacency}
use ai_ops.Topology.Build.{AdjacencyRecord, EvidenceByDevice, build_graph}
use ai_ops.Topology.Build.Impacts.{connectivity_impact-build_graph}
use ai_ops.Topology.{sorted}
use ai_ops.Prelude.{
  ◌≡◌, refl, Bool, true, none, some, [], ◌∷◌, String, str_eq, is_blank, if◌then◌else◌,
}
use ai_ops.Topology.{Graph, GraphNode, GraphEdge, GraphSnapshot, partial, node_names, ends_known}
use ai_ops.Topology.Impact.{plain, taken, ImpactResult, connectivity_impact, is_partial}
use ai_ops.Topology.Impact.Connected.{Says, connectivity_impact-Says}
use ai_ops.Topology.Paths.{PathResult, path_between, found}
use ai_ops.Topology.Paths.Found.{Finds, path_between-Finds}

abbrev node : String → GraphNode
node name = record { name = name; platform = none; configured_hostname = none }

abbrev edge : String → String → String → GraphEdge
edge a b state = record {
  protocol = "isis";
  device_a = a;
  device_b = b;
  interface_a = none;
  interface_b = none;
  state = some state;
  observed_by = [];
}

abbrev fabric : Graph
fabric = record {
  nodes = node "P1" ∷ node "P2" ∷ node "PE1" ∷ node "PE2" ∷ [];
  edges = edge "P1" "P2" "Up" ∷ edge "P2" "PE1" "Up" ∷ edge "P1" "PE2" "Down" ∷ [];
}

abbrev snapshot : GraphSnapshot
snapshot = record {
  graph = fabric;
  observed_at = 10;
  valid_until = 20;
  coverage = partial;
  source_evidence_keys = "P1:isis" ∷ [];
  schema_version = 1;
  limitations = [];
}

-- any order of the texts serves
abbrev as_given : String → String → Bool
as_given a b = true

connectivity_impact-Says_example :
    (r : ImpactResult) × (connectivity_impact as_given (taken snapshot) "P1" ≡ some r)
    × ((m : String) → Says (taken snapshot) "P1" r m)
    × (if is_partial (taken snapshot) then r.disconnected else r.unknown) ≡ []
unfolding node_names ends_known
connectivity_impact-Says_example = connectivity_impact-Says as_given (taken snapshot) "P1" refl refl

path_between-Finds_example :
    (r : PathResult) × (path_between as_given snapshot "P1" "PE1" ≡ some r)
    × Finds snapshot "P1" "PE1" r
unfolding node_names ends_known
path_between-Finds_example = path_between-Finds as_given snapshot "P1" "PE1" refl refl refl

path_found :
    path_between as_given snapshot "P1" "PE1"
    ≡ some record {
      status = found;
      source = "P1";
      destination = "PE1";
      path = "P1" ∷ "P2" ∷ "PE1" ∷ [];
      source_evidence_keys = "P1:isis" ∷ [];
      limitations = [];
    }
unfolding path_between sorted adjacency
path_found = refl

abbrev neighbor : String → AdjacencyRecord
neighbor name = record { neighbor = some name; interface = some "Gi0/0"; state = some "Up" }

abbrev collected : EvidenceByDevice
collected =
    (
      "P1",
      record {
        platform = some "iosxr";
        hostname = some "core1";
        isis = some (neighbor "P2" ∷ neighbor "outside" ∷ []);
        lldp = none;
      },
    )
    ∷ (
      "P2",
      record {
        platform = none;
        hostname = none;
        isis = some (neighbor " core1 " ∷ []);
        lldp = none;
      },
    )
    ∷ ("PE1", record { platform = none; hostname = none; isis = none; lldp = none })
    ∷ []

-- the order of the two names that the adjacency joins
abbrev p1_first : String → String → Bool
p1_first a b = str_eq a "P1"

abbrev as_spelled : String → String
as_spelled name = name

connectivity_impact-build_graph_example :
    (r : ImpactResult) × (connectivity_impact p1_first
        (plain (build_graph p1_first as_spelled collected))
        "P1"
      ≡ some r)
    × ((m : String) → Says (plain (build_graph p1_first as_spelled collected)) "P1" r m)
    × r.unknown ≡ []
connectivity_impact-build_graph_example =
    connectivity_impact-build_graph p1_first as_spelled collected "P1" refl

-- both ends report the one adjacency, and the neighbour outside the evidence gives none
collected_edges :
    (build_graph p1_first as_spelled collected).edges
    ≡ record {
      protocol = "isis";
      device_a = "P1";
      device_b = "P2";
      interface_a = some "Gi0/0";
      interface_b = some "Gi0/0";
      state = some "Up";
      observed_by = "P1" ∷ "P2" ∷ [];
    }
      ∷ []
unfolding build_graph is_blank
collected_edges = refl
