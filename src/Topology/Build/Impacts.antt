-- ===== src/Topology/Build/Impacts.antt =====
-- graph.py and impact.py together: what an impact query says of the graph that was built from
-- evidence.
use ai_ops.Prelude.{◌≡◌, ◌∙◌, String, Bool, true, some, []}
use ai_ops.Topology.{has}
use ai_ops.Topology.Impact.{plain, ImpactResult, connectivity_impact}
use ai_ops.Topology.Impact.Connected.{Says, connectivity_impact-Says}
use ai_ops.Topology.Build.{EvidenceByDevice, build_graph}
use ai_ops.Topology.Build.Known.{devices_of, node_names-build_graph, build_graph-ends_known}

-- For the graph that is built from any evidence, and a subject among the devices of the evidence,
-- the impact query returns a result: no end of an adjacency is missing from the graph. A device is
-- in the result's component if and only if a path of adjacencies that are up reaches it from the
-- subject, it is listed as disconnected or unknown exactly if it is a node that no path reaches, and
-- none is called unknown.
pub connectivity_impact-build_graph :
    (text_leb : String → String → Bool) (casefold : String → String) (evidence : EvidenceByDevice)
    (subject : String)
    → has (devices_of evidence) subject ≡ true
    → (r : ImpactResult) × (connectivity_impact text_leb
          (plain (build_graph text_leb casefold evidence))
          subject
        ≡ some r)
      × ((m : String) → Says (plain (build_graph text_leb casefold evidence)) subject r m)
      × r.unknown ≡ []
connectivity_impact-build_graph text_leb casefold evidence subject known =
    connectivity_impact-Says text_leb (plain (build_graph text_leb casefold evidence)) subject
      (node_names-build_graph text_leb casefold evidence subject ∙ known)
      (build_graph-ends_known text_leb casefold evidence)
