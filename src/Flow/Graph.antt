-- ===== src/Flow/Graph.antt =====
-- The graph of a flow, backend/internal/flow/core/graph.go.
--
-- A graph holds its nodes by their ids. The code keeps pointers to them: a change of a node is a write
-- to the map of the graph.
pub mod Edges
pub mod Changes
pub mod Consistent
use thunder_fork.Prelude.{
  String, Bool, true, false, Option, none, some, List, [], ◌∷◌, ◌++◌, ◌==◌, ◌||◌, contains,
  remove_first, if◌then◌else◌,
}
use thunder_fork.Prelude.Result.{Result, ok, err}
use thunder_fork.Prelude.Assoc.{Assoc, lookup, insert, has}
use thunder_fork.Flow.{FlowType, Node}
use thunder_fork.Flow.Nodes.{
  add_next_node_id, add_previous_node_id, remove_next_node_id, remove_previous_node_id,
}

pub record Graph : Type 0 where
  pub id : String
  pub graph_type : FlowType
  pub nodes : Assoc Node
  pub edges : Assoc (List String)
  pub start_node_id : String

pub data GraphError : Type 0 where
  empty_id no_from_node no_to_node no_node start_not_set no_start_node : GraphError

unfoldable pub new_graph : String → FlowType → Graph
new_graph id graph_type = record {
  id = id;
  graph_type = graph_type;
  nodes = [];
  edges = [];
  start_node_id = "";
}

unfoldable pub add_node : Node → Graph → Graph
add_node node graph = record graph { nodes = insert node.id node graph.nodes }

unfoldable pub get_node : String → Graph → Option Node
get_node node_id graph = lookup node_id graph.nodes

-- A change of the node of an id, if there is one.
unfoldable pub change_node : String → (Node → Node) → Assoc Node → Assoc Node
change_node id f nodes = elim (lookup id nodes) [
  | none ↦ nodes
  | some node ↦ insert id (f node) nodes
]

abbrev pub edges_or_nil : Option (List String) → List String
edges_or_nil none = []
edges_or_nil (some ids) = ids

-- The ids that the graph keeps as the ends of the edges of a node.
abbrev pub targets : String → Graph → List String
targets id graph = edges_or_nil (lookup id graph.edges)

unfoldable pub add_edge : String → String → Graph → Result GraphError Graph
unfolding change_node
add_edge from to graph =
    if from == "" || to == "" then err empty_id else elim (lookup from graph.nodes) [
      | none ↦ err no_from_node
      | some from_node ↦ elim (lookup to graph.nodes) [
        | none ↦ err no_to_node
        | some to_node ↦ ok (record graph {
          nodes =
              change_node to (add_previous_node_id from)
                (change_node from (add_next_node_id to) graph.nodes);
          edges = insert from (targets from graph ++ (to ∷ [])) graph.edges;
        })
      ]
    ]

unfoldable pub remove_edge : String → String → Graph → Result GraphError Graph
unfolding change_node
remove_edge from to graph =
    if from == "" || to == "" then err empty_id else elim (lookup from graph.nodes) [
      | none ↦ err no_from_node
      | some from_node ↦ elim (lookup to graph.nodes) [
        | none ↦ err no_to_node
        | some to_node ↦ ok (record graph {
          nodes =
              change_node to (remove_previous_node_id from)
                (change_node from (remove_next_node_id to) graph.nodes);
          edges = elim (lookup from graph.edges) [
            | none ↦ graph.edges
            | some ids ↦ insert from (remove_first to ids) graph.edges
          ];
        })
      ]
    ]

unfoldable pub get_start_node : Graph → Result GraphError Node
get_start_node graph =
    if graph.start_node_id == ""
    then err start_not_set
    else elim (lookup graph.start_node_id graph.nodes) [
      | none ↦ err no_start_node
      | some node ↦ ok node
    ]

unfoldable pub set_start_node : String → Graph → Result GraphError Graph
set_start_node id graph = elim (lookup id graph.nodes) [
  | none ↦ err no_node
  | some node ↦ ok (record graph {
    start_node_id = id;
    nodes = insert id (record node { is_start_node = true }) graph.nodes;
  })
]
