-- ===== src/Flow/Stored/Reload.antt =====
-- A context that is written to the database and read again, flowexec/model.go.
use thunder_fork.Prelude.{String, ◌≡◌, Option, none, some, arith, eq_iff}
use thunder_fork.Flow.{Node, text_or_empty}
use thunder_fork.Flow.Graph.{Graph, get_node}
use thunder_fork.Flow.Context.{EngineContext}
use thunder_fork.Flow.Stored.{optional, from_engine_context, node_of_graph, to_engine_context}

text_or_empty-optional : (s : String) → text_or_empty (optional s) ≡ s
unfolding optional
text_or_empty-optional s = ground (arith, eq_iff s "")

-- A node as the graph has it now.
abbrev pub refetched : Graph → Option Node → Option Node
refetched graph none = none
refetched graph (some node) = get_node node.id graph

-- A context of a graph and of its type that is stored and loaded again with that graph is the same
-- context, except that it has no response of a node and that its current node is the one that the
-- graph holds under the same id, or none where it holds none.
pub to_engine_context-from_engine_context :
    (ctx : EngineContext) (graph : Graph)
    → ctx.graph ≡ some graph
    → ctx.flow_type ≡ graph.graph_type
    → to_engine_context (from_engine_context ctx) graph
      ≡ record ctx { current_node = refetched graph ctx.current_node; current_node_response = none }
unfolding to_engine_context from_engine_context node_of_graph
to_engine_context-from_engine_context ctx graph g t = ground (
  arith,
  text_or_empty-optional ctx.current_action_id,
  text_or_empty-optional ctx.authenticated_user.user_id,
  text_or_empty-optional ctx.authenticated_user.organization_unit_id,
  text_or_empty-optional ctx.authenticated_user.user_type,
)
