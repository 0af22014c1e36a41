-- ===== src/Topology/Impact/Connected.antt =====
-- The projection of impact against what the adjacencies connect.
use ai_ops.Prelude.{
  ℕ, ◌≡◌, ◌↔◌, inl, inr, refl, sym, ap, ◌∙◌, subst, String, Bool, true, false, not, ◌&&◌, ◌||◌,
  some, List, [], ◌∷◌, ◌++◌, all, length, str_eq, eq_iff, eq_refl, arith, Bool-cases, if◌then◌else◌,
}
use ai_ops.Topology.{
  GraphEdge, has, node_names, ends_known, adjacency, has-adjacency, has-sorted, has-append, sorted,
  Reaches, here, along, is_up, is_complete,
}
use ai_ops.Topology.Search.{loop}
use ai_ops.Topology.Search.Ends.{IsExplorer, open_names-start, loop_ends}
use ai_ops.Topology.Search.Found.{IsFront, IsThrough, loop-IsThrough, loop-Each}
use ai_ops.Topology.Impact.{
  Subject, graph_of, is_partial, ImpactResult, impact, limitations_of, visitor, projected, rest_of,
  connectivity_impact,
}

all-ends :
    (up at_a at_b : Bool) (p : String → Bool) (a b : String) (rest : List String)
    → (not up || (p a && p b)) ≡ true
    → all p rest ≡ true
    → all p (
        let second = (if at_b then a ∷ rest else rest) in
        if up then (if at_a then b ∷ second else second) else rest)
      ≡ true
all-ends false at_a at_b p a b rest h r = r
all-ends true false false p a b rest h r = r
all-ends true false true p a b rest h r = ground arith
all-ends true true false p a b rest h r = ground arith
all-ends true true true p a b rest h r = ground arith

-- the neighbours of a device are nodes
pub adjacency-known :
    (names : List String) (edges : List GraphEdge) (current : String)
    → ends_known names edges ≡ true
    → all (has names) (adjacency edges current) ≡ true
unfolding ends_known adjacency
adjacency-known names [] current h = refl
adjacency-known names (e ∷ es) current h =
    let rest = adjacency-known names es current (ground arith) in
    all-ends (is_up e) (str_eq e.device_a current) (str_eq e.device_b current) (has names)
      e.device_a e.device_b (adjacency es current) (ground arith) rest

visitor-IsExplorer : (edges : List GraphEdge) → IsExplorer (visitor edges)
visitor-IsExplorer edges = record {
  make_lem = λ a b. refl;
  length-push = λ q n. refl;
  has-push = λ q n m. refl;
}

pub has-rest :
    (names visited : List String) (m : String)
    → has (rest_of names visited) m ≡ (has names m && not (has visited m))
has-rest [] visited m = refl
has-rest (n ∷ ns) visited m = elim (Bool-cases (str_eq m n)) [
  | inl e ↦
      let same : has visited m ≡ has visited n = ap (has visited) ((eq_iff m n).0 e) in
      ground (arith, has-rest ns visited m)
  | inr e ↦ ground (arith, has-rest ns visited m)
]

abbrev pub edges_of : Subject → List GraphEdge
edges_of on = (graph_of on).edges

-- what a result says of one device
pub record Says (on : Subject) (subject : String) (r : ImpactResult) (m : String) : Type 0 where
  pub connects : (has r.connected m ≡ true) ↔ Reaches (edges_of on) subject m
  pub misses :
      (has (r.disconnected ++ r.unknown) m ≡ true)
      ↔ ((has (node_names (graph_of on)) m ≡ true) × ¬ Reaches (edges_of on) subject m)

module _ (edges : List GraphEdge) (subject : String) (visited : List String) (fuel : ℕ)
    (found : loop (visitor edges) fuel (subject ∷ []) (subject ∷ []) ≡ some visited) where
  start-IsFront : IsFront (visitor edges) (visitor-IsExplorer edges) (subject ∷ []) (subject ∷ [])
  unfolding IsFront
  start-IsFront m = (λ h. h, λ h. inl h)

  visited-Reaches : (m : String) → has visited m ≡ true → Reaches edges subject m
  visited-Reaches =
      loop-Each (visitor edges) (visitor-IsExplorer edges) (Reaches edges subject)
        (λ a b at_a adjacent. along at_a (sym (has-adjacency edges a b) ∙ adjacent)) fuel
        (subject ∷ []) (subject ∷ []) start-IsFront
        (λ m at_start.
          subst (Reaches edges subject) (sym ((eq_iff m subject).0 (ground arith))) here)
        found

  visited-IsThrough :
      IsThrough (visitor edges) (visitor-IsExplorer edges) visited
      × ((m : String) → has (subject ∷ []) m ≡ true → has visited m ≡ true)
  visited-IsThrough =
      loop-IsThrough (visitor edges) (visitor-IsExplorer edges) fuel (subject ∷ []) (subject ∷ [])
        start-IsFront found

  Reaches-visited : (m : String) → Reaches edges subject m → has visited m ≡ true
  unfolding IsThrough
  Reaches-visited m here = visited-IsThrough.1 subject (ap (λ b. b || false) (eq_refl subject))
  Reaches-visited m (along {a = a} r joined) = elim visited-IsThrough.0 [
    | inl (k, stopped, there) ↦ absurd (ground arith)
    | inr closed ↦ closed a m (Reaches-visited a r) (has-adjacency edges a m ∙ joined)
  ]

or_none : (b : Bool) → (b || false) ≡ b
or_none b = ground arith

and-second : (a b : Bool) → (a && b) ≡ true → b ≡ true
and-second a b h = ground arith

not-both : (b : Bool) → b ≡ true → ¬ (not b ≡ true)
not-both b h n = ground arith

-- the fields of a result, whatever the argument is
impact-fields :
    (on : Subject) (s : String) (c d l u : List String)
    → ((impact on s c d l u).connected ≡ c)
      × ((impact on s c d l u).disconnected ≡ d)
      × ((impact on s c d l u).unknown ≡ u)
impact-fields (Subject.plain g) s c d l u = (refl, refl, refl)
impact-fields (Subject.taken t) s c d l u = (refl, refl, refl)

has-split :
    (b : Bool) (xs : List String) (m : String)
    → has ((if b then [] else xs) ++ (if b then xs else [])) m ≡ has xs m
has-split true xs m = refl
has-split false xs m = has-append xs [] m ∙ or_none (has xs m)

-- what is listed as missing, disconnected or unknown, is what was not visited
has-missing :
    (text_leb : String → String → Bool) (on : Subject) (subject : String) (visited : List String)
    (m : String)
    → has
        ((projected text_leb on subject visited).disconnected
          ++ (projected text_leb on subject visited).unknown)
        m
      ≡ (has (node_names (graph_of on)) m && not (has visited m))
has-missing text_leb on subject visited m =
    let names = node_names (graph_of on) in
    let missing = sorted text_leb (rest_of names visited) in
    let fields =
      impact-fields on subject (sorted text_leb visited) (if is_partial on then [] else missing)
        (limitations_of on) (if is_partial on then missing else []) in
    ap (λ d. has (d ++ (projected text_leb on subject visited).unknown) m) fields.1
    ∙ ap (λ u. has ((if is_partial on then [] else missing) ++ u) m) fields.2
    ∙ has-split (is_partial on) missing m
    ∙ has-sorted text_leb m (rest_of names visited)
    ∙ has-rest names visited m

projected-Says :
    (text_leb : String → String → Bool) (on : Subject) (subject : String) (visited : List String)
    → loop (visitor (edges_of on)) (length (node_names (graph_of on))) (subject ∷ []) (subject ∷ [])
      ≡ some visited
    → (m : String) → Says on subject (projected text_leb on subject visited) m
projected-Says text_leb on subject visited found m =
    let edges = edges_of on in
    let fuel = length (node_names (graph_of on)) in
    let listed : has (projected text_leb on subject visited).connected m ≡ has visited m =
      ap (λ c. has c m) (impact-fields on subject _ _ _ _).0 ∙ has-sorted text_leb m visited in
    let missing = has-missing text_leb on subject visited m in
    record {
      connects = (
        λ h. visited-Reaches edges subject visited fuel found m (sym listed ∙ h),
        λ r. listed ∙ Reaches-visited edges subject visited fuel found m r,
      );
      misses = (
        λ h. (
          ground (arith, sym missing ∙ h),
          λ r. not-both (has visited m) (Reaches-visited edges subject visited fuel found m r) (
              and-second (has (node_names (graph_of on)) m) (not (has visited m))
                (sym missing ∙ h)),
        ),
        λ (node, unreached). missing ∙ elim (Bool-cases (has visited m)) [
          | inl there ↦
              absurd (unreached (visited-Reaches edges subject visited fuel found m there))
          | inr left ↦ ground arith
        ],
      );
    }

projected-side :
    (text_leb : String → String → Bool) (on : Subject) (subject : String) (visited : List String)
    → (if is_partial on
        then (projected text_leb on subject visited).disconnected
        else (projected text_leb on subject visited).unknown)
      ≡ []
projected-side text_leb (Subject.plain g) subject visited = refl
projected-side text_leb (Subject.taken s) subject visited =
    elim (Bool-cases (is_complete s.coverage)) [ inl e ↦ rw e refl | inr e ↦ rw e refl ]

-- the search ends, since the subject is one of the nodes
visits :
    (names : List String) (edges : List GraphEdge) (subject : String)
    → has names subject ≡ true
    → ends_known names edges ≡ true
    → (visited : List String) × (loop (visitor edges) (length names) (subject ∷ []) (subject ∷ [])
        ≡ some visited)
visits names edges subject known ends =
    loop_ends (visitor edges) (visitor-IsExplorer edges) names
      (λ current. adjacency-known names edges current ends) (length names) (subject ∷ [])
      (subject ∷ [])
      (open_names-start (visitor edges) (visitor-IsExplorer edges) names subject known)

-- For a subject that is a node, in a graph whose adjacencies join nodes, the search ends and the
-- projection says of each device what the adjacencies that are up say: it is connected exactly
-- if a path of them reaches it from the subject, and it is listed as disconnected or unknown exactly
-- if it is a node that no path reaches; with a snapshot that is not complete, none is called
-- disconnected, and otherwise none is called unknown.
pub connectivity_impact-Says :
    (text_leb : String → String → Bool) (on : Subject) (subject : String)
    → has (node_names (graph_of on)) subject ≡ true
    → ends_known (node_names (graph_of on)) (edges_of on) ≡ true
    → (r : ImpactResult) × (connectivity_impact text_leb on subject ≡ some r)
      × ((m : String) → Says on subject r m)
      × (if is_partial on then r.disconnected else r.unknown) ≡ []
unfolding connectivity_impact
connectivity_impact-Says text_leb on subject known ends =
    let (visited, found) = visits (node_names (graph_of on)) (edges_of on) subject known ends in
    (
      projected text_leb on subject visited,
      rw (known, ends, found, connectivity_impact) refl,
      projected-Says text_leb on subject visited found,
      projected-side text_leb on subject visited,
    )
