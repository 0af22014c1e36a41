-- ===== src/Topology/Build.antt =====
-- graph.py, graph_snapshot.py and topology.py: the graph that the evidence of the devices gives. Text
-- folding (`casefold`) and the order of texts are arguments. Of a device's evidence there is
-- what the graph reads: its facts, and for each protocol its records, none where they did not
-- parse.
pub mod Sorted
pub mod Known
pub mod Impacts
use ai_ops.Prelude.{
  ℕ, ◌+◌, ◌*◌, String, str_append, Bool, true, false, not, ◌&&◌, ◌||◌, Option, none, some, List, [],
  ◌∷◌, ◌++◌, map, any, str_eq, opt_str_eq, is_blank, is_empty, strip, if◌then◌else◌,
}
use ai_ops.Topology.{
  Graph, GraphNode, GraphEdge, GraphSnapshot, GraphCoverage, complete, partial, snapshot_is_valid,
}

-- a record of an adjacency: the neighbour's field, the own interface's, and the state's
pub record AdjacencyRecord : Type 0 where
  pub neighbor : Option String
  pub interface : Option String
  pub state : Option String

pub record DeviceEvidence : Type 0 where
  pub platform : Option String
  pub hostname : Option String
  pub isis : Option (List AdjacencyRecord)
  pub lldp : Option (List AdjacencyRecord)

abbrev pub EvidenceByDevice : Type 0
EvidenceByDevice = List (String × DeviceEvidence)

-- `_clean_records`
abbrev pub clean_records : Option (List AdjacencyRecord) → List AdjacencyRecord
clean_records none = []
clean_records (some records) = records

-- `configured_hostname`
unfoldable pub configured_hostname : DeviceEvidence → Option String
configured_hostname e = elim e.hostname [
  | none ↦ none
  | some h ↦ if is_blank h then none else some h
]

abbrev pub Names : Type 0
Names = List (String × String)

unfoldable pub name_at : String → Names → Option String
name_at k [] = none
name_at k ((j, v) ∷ m) = let rest = name_at k m in if str_eq j k then some v else rest

-- `mapping[k] = v`; the front of the list is the last written
abbrev pub set_name : String → String → Names → Names
set_name k v m = (k, v) ∷ m

-- `mapping.setdefault(k, v)`
abbrev pub default_name : String → String → Names → Names
default_name k v m = elim (name_at k m) [ none ↦ (k, v) ∷ m | some w ↦ m ]

abbrev pub with_hostname : (String → String) → String → Option String → Names → Names
with_hostname casefold name none m = m
with_hostname casefold name (some h) m = default_name (casefold h) name m

unfoldable pub hostname_map : (String → String) → EvidenceByDevice → Names → Names
unfolding name_at configured_hostname
hostname_map casefold [] m = m
hostname_map casefold ((name, e) ∷ es) m =
    hostname_map casefold es
      (with_hostname casefold name (configured_hostname e) (set_name (casefold name) name m))

unfoldable pub resolve_device : (String → String) → Option String → Names → Option String
unfolding name_at strip
resolve_device casefold none m = none
resolve_device casefold (some name) m = name_at (casefold (strip name)) m

unfoldable pub evidence_of : EvidenceByDevice → String → Option DeviceEvidence
evidence_of [] device = none
evidence_of ((name, e) ∷ es) device =
    let rest = evidence_of es device in if str_eq name device then some e else rest

-- a protocol: its name, and its records in the evidence
pub record Protocol : Type 0 where
  pub name : String
  pub records : DeviceEvidence → Option (List AdjacencyRecord)

abbrev pub isis_protocol : Protocol
isis_protocol = record { name = "isis"; records = λ e. e.isis }

abbrev pub lldp_protocol : Protocol
lldp_protocol = record { name = "lldp"; records = λ e. e.lldp }

-- the first record that names the neighbour
unfoldable pub own_record :
    (String → String) → Names → String → List AdjacencyRecord → Option String × Option String
unfolding resolve_device
own_record casefold m neighbor [] = (none, none)
own_record casefold m neighbor (r ∷ rs) =
    let rest = own_record casefold m neighbor rs in
    if opt_str_eq (resolve_device casefold r.neighbor m) (some neighbor)
    then (r.interface, r.state)
    else rest

abbrev pub records_at : Protocol → Option DeviceEvidence → List AdjacencyRecord
records_at p none = []
records_at p (some e) = clean_records (p.records e)

-- `_own_interface_and_state`
abbrev pub own_interface_and_state :
    (String → String)
    → EvidenceByDevice
    → Names
    → Protocol
    → String
    → String
    → Option String × Option String
own_interface_and_state casefold evidence m p device neighbor =
    own_record casefold m neighbor (records_at p (evidence_of evidence device))

abbrev pub Pair : Type 0
Pair = String × String

abbrev pub in_order : (String → String → Bool) → String → String → Pair
in_order text_leb a b = if text_leb a b then (a, b) else (b, a)

abbrev pub same_pair : Pair → Pair → Bool
same_pair p q = str_eq p.0 q.0 && str_eq p.1 q.1

-- `pairs.add(pair)`
abbrev pub add_pair : Pair → List Pair → List Pair
add_pair p pairs = if any (same_pair p) pairs then pairs else p ∷ pairs

abbrev pub pair_of : (String → String → Bool) → String → Option String → List Pair → List Pair
pair_of text_leb device none pairs = pairs
pair_of text_leb device (some neighbor) pairs =
    if str_eq neighbor device then pairs else add_pair (in_order text_leb device neighbor) pairs

unfoldable pub pairs_of_records :
    (String → String → Bool)
    → (String → String)
    → Names
    → String
    → List AdjacencyRecord
    → List Pair
    → List Pair
unfolding resolve_device
pairs_of_records text_leb casefold m device [] pairs = pairs
pairs_of_records text_leb casefold m device (r ∷ rs) pairs =
    pairs_of_records text_leb casefold m device rs
      (pair_of text_leb device (resolve_device casefold r.neighbor m) pairs)

unfoldable pub adjacent_pairs :
    (String → String → Bool)
    → (String → String)
    → Names
    → Protocol
    → EvidenceByDevice
    → List Pair
    → List Pair
unfolding pairs_of_records
adjacent_pairs text_leb casefold m p [] pairs = pairs
adjacent_pairs text_leb casefold m p ((name, e) ∷ es) pairs =
    adjacent_pairs text_leb casefold m p es
      (pairs_of_records text_leb casefold m name (clean_records (p.records e)) pairs)

-- `state_a or state_b`
abbrev pub or_state : Option String → Option String → Option String
or_state none b = b
or_state (some a) b = if is_empty a then b else some a

abbrev pub observer : String → Option String → List String
observer device none = []
observer device (some interface) = device ∷ []

unfoldable pub edge_of : (String → String) → EvidenceByDevice → Names → Protocol → Pair → GraphEdge
unfolding own_record evidence_of
edge_of casefold evidence m p (a, b) =
    let (interface_a, state_a) = own_interface_and_state casefold evidence m p a b in
    let (interface_b, state_b) = own_interface_and_state casefold evidence m p b a in
    record {
      protocol = p.name;
      device_a = a;
      device_b = b;
      interface_a = interface_a;
      interface_b = interface_b;
      state = or_state state_a state_b;
      observed_by = observer a interface_a ++ observer b interface_b;
    }

unfoldable pub protocol_edges :
    (String → String → Bool)
    → (String → String)
    → EvidenceByDevice
    → Names
    → Protocol
    → List GraphEdge
unfolding adjacent_pairs edge_of
protocol_edges text_leb casefold evidence m p =
    map (edge_of casefold evidence m p) (adjacent_pairs text_leb casefold m p evidence [])

-- `(e.protocol, e.device_a, e.device_b)` in order
abbrev pub before_edge : (String → String → Bool) → GraphEdge → GraphEdge → Bool
before_edge text_leb x y =
    if not (str_eq x.protocol y.protocol)
    then text_leb x.protocol y.protocol
    else if not (str_eq x.device_a y.device_a)
    then text_leb x.device_a y.device_a
    else text_leb x.device_b y.device_b

unfoldable pub insert_by : {A : Type 0} → (A → A → Bool) → A → List A → List A
insert_by leq x [] = x ∷ []
insert_by leq x (y ∷ ys) = let rest = insert_by leq x ys in if leq x y then x ∷ y ∷ ys else y ∷ rest

-- `sorted(..., key=...)`
unfoldable pub sorted_by : {A : Type 0} → (A → A → Bool) → List A → List A
unfolding insert_by
sorted_by leq [] = []
sorted_by leq (x ∷ xs) = insert_by leq x (sorted_by leq xs)

abbrev pub node_of : String × DeviceEvidence → GraphNode
unfolding configured_hostname
node_of (name, e) = record {
  name = name;
  platform = e.platform;
  configured_hostname = configured_hostname e;
}

unfoldable pub build_graph : (String → String → Bool) → (String → String) → EvidenceByDevice → Graph
unfolding hostname_map protocol_edges sorted_by node_of
build_graph text_leb casefold evidence =
    let m = hostname_map casefold evidence [] in
    record {
      nodes =
          map node_of (sorted_by (λ (x y : String × DeviceEvidence). text_leb x.0 y.0) evidence);
      edges = sorted_by (before_edge text_leb) (
          protocol_edges text_leb casefold evidence m lldp_protocol
          ++ protocol_edges text_leb casefold evidence m isis_protocol);
    }
