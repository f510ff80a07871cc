-- ===== src/Flow/GraphExamples.antt =====
-- Concrete graphs: the theorems on edges at concrete inputs.
use thunder_fork.Prelude.{
  String, ◌≡◌, true, false, none, List, [], ◌∷◌, contains, remove_first, refl, arith,
}
use thunder_fork.Prelude.Result.{ok}
use thunder_fork.Prelude.Assoc.{lookup, insert}
use thunder_fork.Flow.{authentication, Node, task_execution}
use thunder_fork.Flow.Graph.{Graph, add_edge, remove_edge, change_node, targets}
use thunder_fork.Flow.Graph.Edges.{IsConsistent, next_ids}
use thunder_fork.Flow.Graph.Consistent.{IsSimple, add_edge-IsConsistent, stale_edge}
use thunder_fork.Flow.Nodes.{add_id, remove_id}

abbrev node : String → List String → List String → Node
node id next previous = record {
  id = id;
  node_type = task_execution;
  properties = [];
  is_start_node = false;
  is_final_node = false;
  next_node_list = next;
  previous_node_list = previous;
  input_data = [];
  condition = none;
  executor_name = "";
  executor = none;
}

-- Two nodes, with the next nodes of `a`, the previous nodes of `b`, and the edges of `a`.
abbrev two : List String → List String → List String → Graph
two next previous ends = record {
  id = "g";
  graph_type = authentication;
  nodes = ("a", node "a" next []) ∷ ("b", node "b" [] previous) ∷ [];
  edges = ("a", ends) ∷ [];
  start_node_id = "a";
}

abbrev bare : Graph
bare = two [] [] []

abbrev linked : Graph
linked = two ("b" ∷ []) ("a" ∷ []) ("b" ∷ [])

abbrev doubled : Graph
doubled = two ("b" ∷ []) ("a" ∷ []) ("b" ∷ "b" ∷ [])

-- The node is unlinked, the edge is still there.
abbrev stale : Graph
stale = two [] [] ("b" ∷ [])

bare-IsConsistent : IsConsistent bare
unfolding lookup contains
bare-IsConsistent = record {
  next_agrees = λ k t. ground arith;
  previous_agrees = λ k t. ground arith;
}

added : add_edge "a" "b" bare ≡ ok linked
unfolding add_edge change_node lookup insert add_id contains
added = refl

linked-IsConsistent : IsConsistent linked
linked-IsConsistent = add_edge-IsConsistent "a" "b" bare linked added bare-IsConsistent

linked-IsSimple : IsSimple linked
unfolding lookup contains
linked-IsSimple = record {
  next_simple = λ k. ground arith;
  previous_simple = λ k. ground arith;
  targets_simple = λ k. ground arith;
}

removed : remove_edge "a" "b" linked ≡ ok bare
unfolding remove_edge change_node lookup insert remove_id remove_first
removed = refl

added_again : add_edge "a" "b" linked ≡ ok doubled
unfolding add_edge change_node lookup insert add_id contains
added_again = refl

removed_once : remove_edge "a" "b" doubled ≡ ok stale
unfolding remove_edge change_node lookup insert remove_id remove_first
removed_once = refl

stale_edge_example :
    (contains "b" (targets "a" stale) ≡ true) × (contains "b" (next_ids "a" stale) ≡ false)
unfolding contains lookup
stale_edge_example =
    stale_edge "a" "b" linked doubled stale added_again removed_once refl linked-IsSimple
      linked-IsConsistent
