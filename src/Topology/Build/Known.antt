-- ===== src/Topology/Build/Known.antt =====
-- The edges of a graph that was built from evidence join its nodes.
use ai_ops.Prelude.{
  all-append, ◌≡◌, refl, sym, ap, ◌∙◌, String, Bool, true, not, ◌&&◌, ◌||◌, Option, none, some,
  List, [], ◌∷◌, ◌++◌, map, any, all, str_eq, eq_refl, arith, Bool-cases, Option-cases, inl, inr,
  All, none-some, some-injective,
}
use ai_ops.Topology.{GraphNode, GraphEdge, has, node_names, ends_known, is_up, has-distinct}
use ai_ops.Topology.Build.{
  EvidenceByDevice, DeviceEvidence, Names, name_at, with_hostname, set_name, default_name,
  hostname_map, configured_hostname, resolve_device, Pair, in_order, pair_of, pairs_of_records,
  adjacent_pairs, Protocol, clean_records, edge_of, protocol_edges, before_edge, sorted_by, node_of,
  same_pair, build_graph, AdjacencyRecord, lldp_protocol, isis_protocol,
}
use ai_ops.Topology.Build.Sorted.{all-sorted_by, any-sorted_by}

-- the devices of the evidence
abbrev pub devices_of : EvidenceByDevice → List String
devices_of = map (λ (x : String × DeviceEvidence). x.0)

or_both : (u a b : Bool) → a ≡ true → b ≡ true → (not u || (a && b)) ≡ true
or_both u a b ha hb = ground arith

and_both : (a b : Bool) → a ≡ true → b ≡ true → (a && b) ≡ true
and_both a b ha hb = ground arith

module _ (names : List String) where
  -- the names that a mapping leads to are devices
  LeadsIn : Names → Type 0
  LeadsIn = All (λ (x : String × String). has names x.1 ≡ true)

  name_at-LeadsIn :
      (k : String) (m : Names) {v : String} → LeadsIn m → name_at k m ≡ some v → has names v ≡ true
  unfolding LeadsIn name_at
  name_at-LeadsIn k [] l h = absurd (none-some h)
  name_at-LeadsIn k ((j, w) ∷ m) {v} l h = elim (Bool-cases (str_eq j k)) [
    | inl e ↦ sym (ap (has names) (some-injective (rw e at h))) ∙ l.0
    | inr e ↦ name_at-LeadsIn k m l.1 (rw e at h)
  ]

  with_hostname-LeadsIn :
      (casefold : String → String) (name : String) (h : Option String) (m : Names)
      → has names name ≡ true
      → LeadsIn m
      → LeadsIn (with_hostname casefold name h m)
  unfolding LeadsIn
  with_hostname-LeadsIn casefold name none m n l = l
  with_hostname-LeadsIn casefold name (some h) m n l =
      elim (Option-cases (name_at (casefold h) m)) [
        | inl e ↦ rw (e, default_name) (n, l)
        | inr (w, e) ↦ rw (e, default_name) l
      ]

  hostname_map-LeadsIn :
      (casefold : String → String) (es : EvidenceByDevice) (m : Names)
      → All (λ d. has names d ≡ true) (devices_of es)
      → LeadsIn m
      → LeadsIn (hostname_map casefold es m)
  unfolding hostname_map LeadsIn
  hostname_map-LeadsIn casefold [] m n l = l
  hostname_map-LeadsIn casefold ((name, e) ∷ es) m n l = hostname_map-LeadsIn casefold es _ n.1 (
      with_hostname-LeadsIn casefold name (configured_hostname e) (set_name (casefold name) name m)
        n.0 (n.0, l))

  resolve_device-LeadsIn :
      (casefold : String → String) (o : Option String) (m : Names) {v : String}
      → LeadsIn m
      → resolve_device casefold o m ≡ some v
      → has names v ≡ true
  unfolding resolve_device
  resolve_device-LeadsIn casefold none m l h = absurd (none-some h)
  resolve_device-LeadsIn casefold (some name) m l h = name_at-LeadsIn _ m l h

  abbrev PairIn : Pair → Type 0
  PairIn p = (has names p.0 ≡ true) × (has names p.1 ≡ true)

  pair_of-PairIn :
      (text_leb : String → String → Bool) (device : String) (o : Option String) (pairs : List Pair)
      → has names device ≡ true
      → ((v : String) → o ≡ some v → has names v ≡ true)
      → All PairIn pairs
      → All PairIn (pair_of text_leb device o pairs)
  pair_of-PairIn text_leb device none pairs d v ps = ps
  pair_of-PairIn text_leb device (some n) pairs d v ps = elim (Bool-cases (str_eq n device)) [
    | inl e ↦ rw e ps
    | inr e ↦ rw e (elim (Bool-cases (any (λ q. same_pair (in_order text_leb device n) q) pairs)) [
      | inl old ↦ rw old ps
      | inr new ↦ rw new (
        elim (Bool-cases (text_leb device n)) [
          | inl first ↦ rw first (d, v n refl)
          | inr second ↦ rw second (v n refl, d)
        ],
        ps,
      )
    ])
  ]

  pairs_of_records-PairIn :
      (text_leb : String → String → Bool) (casefold : String → String) (m : Names) (device : String)
      (rs : List AdjacencyRecord) (pairs : List Pair)
      → LeadsIn m
      → has names device ≡ true
      → All PairIn pairs
      → All PairIn (pairs_of_records text_leb casefold m device rs pairs)
  unfolding pairs_of_records
  pairs_of_records-PairIn text_leb casefold m device [] pairs l d ps = ps
  pairs_of_records-PairIn text_leb casefold m device (r ∷ rs) pairs l d ps =
      pairs_of_records-PairIn text_leb casefold m device rs
        (pair_of text_leb device (resolve_device casefold r.neighbor m) pairs) l d
        (pair_of-PairIn text_leb device (resolve_device casefold r.neighbor m) pairs d
          (λ v. resolve_device-LeadsIn casefold r.neighbor m l) ps)

  adjacent_pairs-PairIn :
      (text_leb : String → String → Bool) (casefold : String → String) (m : Names) (p : Protocol)
      (es : EvidenceByDevice) (pairs : List Pair)
      → LeadsIn m
      → All (λ d. has names d ≡ true) (devices_of es)
      → All PairIn pairs
      → All PairIn (adjacent_pairs text_leb casefold m p es pairs)
  unfolding adjacent_pairs
  adjacent_pairs-PairIn text_leb casefold m p [] pairs l ds ps = ps
  adjacent_pairs-PairIn text_leb casefold m p ((name, e) ∷ es) pairs l ds ps =
      adjacent_pairs-PairIn text_leb casefold m p es
        (pairs_of_records text_leb casefold m name (clean_records (p.records e)) pairs) l ds.1
        (pairs_of_records-PairIn text_leb casefold m name (clean_records (p.records e)) pairs l ds.0
          ps)

  -- both ends of an edge are names
  abbrev ends_in : GraphEdge → Bool
  ends_in e = not (is_up e) || (has names e.device_a && has names e.device_b)

  edge-ends_in :
      (casefold : String → String) (evidence : EvidenceByDevice) (m : Names) (p : Protocol)
      (a b : String)
      → PairIn (a, b)
      → ends_in (edge_of casefold evidence m p (a, b)) ≡ true
  unfolding edge_of
  edge-ends_in casefold evidence m p a b h =
      or_both (is_up (edge_of casefold evidence m p (a, b))) (has names a) (has names b) h.0 h.1

  edges-ends_in :
      (casefold : String → String) (evidence : EvidenceByDevice) (m : Names) (p : Protocol)
      (pairs : List Pair)
      → All PairIn pairs
      → all ends_in (map (edge_of casefold evidence m p) pairs) ≡ true
  edges-ends_in casefold evidence m p [] ps = refl
  edges-ends_in casefold evidence m p ((a, b) ∷ pairs) ps =
      and_both (ends_in (edge_of casefold evidence m p (a, b)))
        (all ends_in (map (edge_of casefold evidence m p) pairs))
        (edge-ends_in casefold evidence m p a b ps.0)
        (edges-ends_in casefold evidence m p pairs ps.1)

has-nodes :
    (x : String) (evidence : EvidenceByDevice)
    → has (map (λ (n : GraphNode). n.name) (map node_of evidence)) x
      ≡ any (λ (d : String × DeviceEvidence). str_eq x d.0) evidence
unfolding node_of
has-nodes x [] = refl
has-nodes x ((name, e) ∷ es) = ap (λ b. str_eq x name || b) (has-nodes x es)

has-devices :
    (x : String) (evidence : EvidenceByDevice)
    → has (devices_of evidence) x ≡ any (λ (d : String × DeviceEvidence). str_eq x d.0) evidence
has-devices x [] = refl
has-devices x ((name, e) ∷ es) = ap (λ b. str_eq x name || b) (has-devices x es)

-- the nodes are the devices of the evidence
pub node_names-build_graph :
    (text_leb : String → String → Bool) (casefold : String → String) (evidence : EvidenceByDevice)
    (x : String)
    → has (node_names (build_graph text_leb casefold evidence)) x ≡ has (devices_of evidence) x
unfolding build_graph node_names
node_names-build_graph text_leb casefold evidence x =
    let by_name = λ (a b : String × DeviceEvidence). text_leb a.0 b.0 in
    has-distinct x (map (λ (n : GraphNode). n.name) (map node_of (sorted_by by_name evidence)))
    ∙ has-nodes x (sorted_by by_name evidence)
    ∙ any-sorted_by (λ (d : String × DeviceEvidence). str_eq x d.0) by_name evidence
    ∙ sym (has-devices x evidence)

-- every device is a node
devices-All :
    (names : List String) (es : EvidenceByDevice)
    → ((x : String) → has (devices_of es) x ≡ true → has names x ≡ true)
    → All (λ d. has names d ≡ true) (devices_of es)
devices-All names [] f = tt
devices-All names ((name, e) ∷ es) f = (
  f name (ap (λ b. b || has (devices_of es) name) (eq_refl name)),
  devices-All names es (λ x h. f x (ground arith)),
)

-- so the mapping of host names leads to nodes
names-LeadsIn :
    (text_leb : String → String → Bool) (casefold : String → String) (evidence : EvidenceByDevice)
    → LeadsIn
        (node_names (build_graph text_leb casefold evidence))
        (hostname_map casefold evidence [])
unfolding LeadsIn
names-LeadsIn text_leb casefold evidence =
    hostname_map-LeadsIn (node_names (build_graph text_leb casefold evidence)) casefold evidence []
      (devices-All (node_names (build_graph text_leb casefold evidence)) evidence
        (λ x h. node_names-build_graph text_leb casefold evidence x ∙ h))
      tt

-- and each protocol's adjacencies join nodes
protocol_edges-ends_in :
    (text_leb : String → String → Bool) (casefold : String → String) (evidence : EvidenceByDevice)
    (p : Protocol)
    → all
        (ends_in (node_names (build_graph text_leb casefold evidence)))
        (protocol_edges text_leb casefold evidence (hostname_map casefold evidence []) p)
      ≡ true
unfolding protocol_edges
protocol_edges-ends_in text_leb casefold evidence p =
    let names = node_names (build_graph text_leb casefold evidence) in
    let m = hostname_map casefold evidence [] in
    edges-ends_in names casefold evidence m p (adjacent_pairs text_leb casefold m p evidence []) (
      adjacent_pairs-PairIn names text_leb casefold m p evidence []
        (names-LeadsIn text_leb casefold evidence)
        (devices-All names evidence
          (λ x h. node_names-build_graph text_leb casefold evidence x ∙ h))
        tt)

-- so the adjacencies of the graph join nodes
pub build_graph-ends_known :
    (text_leb : String → String → Bool) (casefold : String → String) (evidence : EvidenceByDevice)
    → ends_known
        (node_names (build_graph text_leb casefold evidence))
        (build_graph text_leb casefold evidence).edges
      ≡ true
unfolding ends_known build_graph
build_graph-ends_known text_leb casefold evidence =
    let names = node_names (build_graph text_leb casefold evidence) in
    let m = hostname_map casefold evidence [] in
    let lldp = protocol_edges text_leb casefold evidence m lldp_protocol in
    let isis = protocol_edges text_leb casefold evidence m isis_protocol in
    all-sorted_by (ends_in names) (before_edge text_leb) (lldp ++ isis)
    ∙ all-append (ends_in names) lldp isis
    ∙ and_both (all (ends_in names) lldp) (all (ends_in names) isis)
        (protocol_edges-ends_in text_leb casefold evidence lldp_protocol)
        (protocol_edges-ends_in text_leb casefold evidence isis_protocol)
