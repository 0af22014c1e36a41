-- ===== src/Topology.antt =====
-- graph.py and graph_snapshot.py: the derived graph of devices and adjacencies, and the part of it
-- that is known to be up. A `KeyError` for an edge whose end is no node is `none` in the children.
pub mod Search
pub mod Impact
pub mod Paths
pub mod Build
use ai_ops.Prelude.{
  ℕ, String, Bool, true, false, not, ◌&&◌, ◌||◌, Option, none, some, List, [], ◌∷◌, ◌++◌, map, any,
  all, str_eq, opt_str_eq, if◌then◌else◌, ltb, ◌==◌, ◌≡◌, refl, ap, ◌∙◌, arith, eq_iff,
}

pub record GraphNode : Type 0 where
  pub name : String
  pub platform : Option String
  pub configured_hostname : Option String

pub record GraphEdge : Type 0 where
  pub protocol : String
  pub device_a : String
  pub device_b : String
  pub interface_a : Option String
  pub interface_b : Option String
  pub state : Option String
  pub observed_by : List String

pub record Graph : Type 0 where
  pub nodes : List GraphNode
  pub edges : List GraphEdge

pub data GraphCoverage : Type 0 where
  complete partial unknown : GraphCoverage

abbrev pub is_complete : GraphCoverage → Bool
is_complete complete = true
is_complete _ = false

pub record GraphSnapshot : Type 0 where
  pub graph : Graph
  pub observed_at : ℕ
  pub valid_until : ℕ
  pub coverage : GraphCoverage
  pub source_evidence_keys : List String
  pub schema_version : ℕ
  pub limitations : List String

abbrev has_items : List String → Bool
has_items [] = false
has_items (s ∷ ss) = true

-- `GraphSnapshot.__post_init__` on aware times; false where it raises
unfoldable pub snapshot_is_valid : GraphSnapshot → Bool
snapshot_is_valid s =
    not (ltb s.valid_until s.observed_at)
    && s.schema_version == 1
    && has_items s.source_evidence_keys

abbrev pub has : List String → String → Bool
has names x = any (str_eq x) names

-- a set of texts as the list of its members
unfoldable pub distinct : List String → List String
distinct [] = []
distinct (x ∷ xs) = let rest = distinct xs in if has xs x then rest else x ∷ rest

-- `{node.name for node in graph.nodes}`
unfoldable pub node_names : Graph → List String
unfolding distinct
node_names g = distinct (map (λ (n : GraphNode). n.name) g.nodes)

abbrev pub is_up : GraphEdge → Bool
is_up e = str_eq e.protocol "isis" && opt_str_eq e.state (some "Up")

-- each end that the loop looks up in `adjacency` is a node
unfoldable pub ends_known : List String → List GraphEdge → Bool
ends_known names edges =
    all (λ (e : GraphEdge). not (is_up e) || (has names e.device_a && has names e.device_b)) edges

-- `adjacency[name]`
unfoldable pub adjacency : List GraphEdge → String → List String
adjacency [] name = []
adjacency (e ∷ es) name =
    let rest = adjacency es name in
    let second = (if str_eq e.device_b name then e.device_a ∷ rest else rest) in
    if is_up e then (if str_eq e.device_a name then e.device_b ∷ second else second) else rest

-- an adjacency that is up joins two devices, in either direction
abbrev pub joins : GraphEdge → String → String → Bool
joins e a b =
    is_up e
    && ((str_eq e.device_a a && str_eq e.device_b b)
        || (str_eq e.device_a b && str_eq e.device_b a))

abbrev pub AreJoined : List GraphEdge → String → String → Type 0
AreJoined edges a b = any (λ e. joins e a b) edges ≡ true

pub data Reaches (edges : List GraphEdge) (start : String) : String → Type 0 where
  here : Reaches edges start start
  along : {a b : String} → Reaches edges start a → AreJoined edges a b → Reaches edges start b

-- `sorted`, by the order of texts
insert_text : (String → String → Bool) → String → List String → List String
insert_text text_leb x [] = x ∷ []
insert_text text_leb x (y ∷ ys) =
    let rest = insert_text text_leb x ys in if text_leb x y then x ∷ y ∷ ys else y ∷ rest

unfoldable pub sorted : (String → String → Bool) → List String → List String
unfolding insert_text
sorted text_leb [] = []
sorted text_leb (x ∷ xs) = insert_text text_leb x (sorted text_leb xs)

has-insert :
    (text_leb : String → String → Bool) (x y : String) (xs : List String)
    → has (insert_text text_leb x xs) y ≡ (str_eq y x || has xs y)
unfolding insert_text
has-insert text_leb x y [] = refl
has-insert text_leb x y (z ∷ xs) = ground (arith, has-insert text_leb x y xs)

pub has-sorted :
    (text_leb : String → String → Bool) (y : String) (xs : List String)
    → has (sorted text_leb xs) y ≡ has xs y
unfolding sorted
has-sorted text_leb y [] = refl
has-sorted text_leb y (x ∷ xs) =
    has-insert text_leb x y (sorted text_leb xs)
    ∙ ap (λ b. str_eq y x || b) (has-sorted text_leb y xs)

all-insert :
    (text_leb : String → String → Bool) (p : String → Bool) (x : String) (xs : List String)
    → all p (insert_text text_leb x xs) ≡ (p x && all p xs)
unfolding insert_text
all-insert text_leb p x [] = refl
all-insert text_leb p x (z ∷ xs) = ground (arith, all-insert text_leb p x xs)

pub all-sorted :
    (text_leb : String → String → Bool) (p : String → Bool) (xs : List String)
    → all p (sorted text_leb xs) ≡ all p xs
unfolding sorted
all-sorted text_leb p [] = refl
all-sorted text_leb p (x ∷ xs) =
    all-insert text_leb p x (sorted text_leb xs) ∙ ap (λ b. p x && b) (all-sorted text_leb p xs)

pub has-append : (xs ys : List String) (m : String) → has (xs ++ ys) m ≡ (has xs m || has ys m)
has-append [] ys m = refl
has-append (x ∷ xs) ys m = ground (arith, has-append xs ys m)

pub has-distinct : (y : String) (xs : List String) → has (distinct xs) y ≡ has xs y
unfolding distinct
has-distinct y [] = refl
has-distinct y (x ∷ xs) = ground (arith, has-distinct y xs, eq_iff y x)

has-ends :
    (up at_a at_b : Bool) (a b y : String) (rest : List String)
    → has
        (let second = (if at_b then a ∷ rest else rest) in
          if up then (if at_a then b ∷ second else second) else rest)
        y
      ≡ ((up && ((at_a && str_eq y b) || (at_b && str_eq y a))) || has rest y)
has-ends false at_a at_b a b y rest = refl
has-ends true false false a b y rest = refl
has-ends true false true a b y rest = refl
has-ends true true false a b y rest = ground arith
has-ends true true true a b y rest = ground arith

and_swap : (p q : Bool) → (p && q) ≡ (q && p)
and_swap p q = ground arith

pub str_eq_comm : (a b : String) → str_eq a b ≡ str_eq b a
str_eq_comm a b = ground (arith, eq_iff a b, eq_iff b a)

swapped : (a b x y : String) → (str_eq b x && str_eq y a) ≡ (str_eq a y && str_eq b x)
swapped a b x y = ap (λ t. str_eq b x && t) (str_eq_comm y a) ∙ and_swap (str_eq b x) (str_eq a y)

-- who is adjacent
pub has-adjacency :
    (edges : List GraphEdge) (a b : String)
    → has (adjacency edges a) b ≡ any (λ e. joins e a b) edges
unfolding adjacency
has-adjacency [] a b = refl
has-adjacency (e ∷ es) a b =
    has-ends (is_up e) (str_eq e.device_a a) (str_eq e.device_b a) e.device_a e.device_b b
      (adjacency es a)
    ∙ ap
        (λ t.
          (is_up e && ((str_eq e.device_a a && t) || (str_eq e.device_b a && str_eq b e.device_a)))
          || has (adjacency es a) b)
        (str_eq_comm b e.device_b)
    ∙ ap
        (λ t.
          (is_up e && ((str_eq e.device_a a && str_eq e.device_b b) || t))
          || has (adjacency es a) b)
        (swapped e.device_a e.device_b a b)
    ∙ ap (λ t. joins e a b || t) (has-adjacency es a b)
