-- ===== src/Flow/Graph/Edges.antt =====
-- The edges of a graph, core/graph.go, and the lists of its nodes.
use thunder_fork.Prelude.{
  String, ◌≡◌, false, ◌||◌, Option, none, some, List, [], ◌∷◌, ◌==◌, contains, NoDup,
  contains-append, contains-remove_first, if◌then◌else◌, arith, refl, ◌∙◌, eq_iff, Option-cases,
  inl, inr,
}
use thunder_fork.Prelude.Assoc.{Assoc, lookup, lookup-insert}
use thunder_fork.Flow.{Node}
use thunder_fork.Flow.Nodes.{add_id, remove_id}
use thunder_fork.Flow.Graph.{Graph, change_node, targets}

abbrev pub next_list : Option Node → List String
next_list none = []
next_list (some node) = node.next_node_list

abbrev pub previous_list : Option Node → List String
previous_list none = []
previous_list (some node) = node.previous_node_list

-- The ids of the list of the node of an id, which is empty where there is no node.
abbrev pub next_ids : String → Graph → List String
next_ids id graph = next_list (lookup id graph.nodes)

abbrev pub previous_ids : String → Graph → List String
previous_ids id graph = previous_list (lookup id graph.nodes)

-- The three records of an edge agree: the map of the graph, the list of the one node, and the list of
-- the other.
pub record IsConsistent (graph : Graph) : Type 0 where
  pub next_agrees : (k t : String) → contains t (next_ids k graph) ≡ contains t (targets k graph)
  pub previous_agrees :
      (k t : String) → contains k (previous_ids t graph) ≡ contains t (targets k graph)

abbrev change : (Node → Node) → Option Node → Option Node
change f none = none
change f (some node) = some (f node)

lookup-change_node :
    (id j : String) (f : Node → Node) (nodes : Assoc Node)
    → lookup j (change_node id f nodes)
      ≡ (if id == j then change f (lookup j nodes) else lookup j nodes)
unfolding change_node
lookup-change_node id j f nodes = elim (Option-cases (lookup id nodes)) [
  | inl p ↦ rw (p, change_node) (ground (arith, p, eq_iff id j))
  | inr (node, p) ↦
      rw (p, change_node) (lookup-insert id j (f node) nodes ∙ ground (arith, p, eq_iff id j))
]

pub contains-add_id :
    (id t : String) (ids : List String)
    → (id == "") ≡ false
    → contains t (add_id id ids) ≡ (id == t || contains t ids)
unfolding add_id contains
contains-add_id id t ids h = ground (arith, h, contains-append t ids (id ∷ []), eq_iff id t)

pub contains-remove_id :
    (id t : String) (ids : List String)
    → (id == "") ≡ false
    → NoDup ids
    → contains t (remove_id id ids) ≡ (if id == t then false else contains t ids)
unfolding remove_id
contains-remove_id id t ids h nodup = ground (arith, h, contains-remove_first id t ids nodup)

-- The lists after the change of the two nodes of an edge, by any change of the lists.
module _ (from to : String) (f g : List String → List String) (nodes : Assoc Node) where
  abbrev with_next : Node → Node
  with_next node = record node { next_node_list = f node.next_node_list }

  abbrev with_previous : Node → Node
  with_previous node = record node { previous_node_list = g node.previous_node_list }

  abbrev pub changed_nodes : Assoc Node
  changed_nodes = change_node to with_previous (change_node from with_next nodes)

  next-change : (o : Option Node) → next_list (change with_previous o) ≡ next_list o
  next-change none = refl
  next-change (some node) = refl

  previous-change : (o : Option Node) → previous_list (change with_next o) ≡ previous_list o
  previous-change none = refl
  previous-change (some node) = refl

  pub next-changed :
      (k : String) (node : Node)
      → lookup from nodes ≡ some node
      → next_list (lookup k changed_nodes)
        ≡ (if from == k then f (next_list (lookup k nodes)) else next_list (lookup k nodes))
  next-changed k node h = ground (
    arith,
    h,
    eq_iff from k,
    lookup-change_node to k with_previous (change_node from with_next nodes),
    lookup-change_node from k with_next nodes,
    next-change (lookup k (change_node from with_next nodes)),
  )

  pub previous-changed :
      (k : String) (node : Node)
      → lookup to nodes ≡ some node
      → previous_list (lookup k changed_nodes)
        ≡ (if to == k then g (previous_list (lookup k nodes)) else previous_list (lookup k nodes))
  previous-changed k node h = ground (
    arith,
    h,
    eq_iff to k,
    eq_iff from k,
    lookup-change_node to k with_previous (change_node from with_next nodes),
    lookup-change_node from k with_next nodes,
    previous-change (lookup k nodes),
  )
