-- ===== src/Flow/Stored.antt =====
-- The context of a flow in the database: FlowContextWithUserDataDB of
-- backend/internal/flow/flowexec/model.go, made from an engine context and turned into one again.
--
-- A map stands for its JSON text, so that no conversion fails; it is none where the column is NULL. The
-- times of a row are left out.
pub mod Reload
use thunder_fork.Prelude.{String, Bool, Option, none, some, [], ◌==◌, if◌then◌else◌}
use thunder_fork.Prelude.Assoc.{Assoc}
use thunder_fork.Flow.{Node, NodeExecutionRecord, text_or_empty}
use thunder_fork.Flow.Graph.{Graph, get_node}
use thunder_fork.Flow.Context.{EngineContext}

pub record FlowContextRow : Type 0 where
  pub flow_id : String
  pub app_id : String
  pub current_node_id : Option String
  pub current_action_id : Option String
  pub graph_id : String
  pub runtime_data : Option (Assoc String)
  pub is_authenticated : Bool
  pub user_id : Option String
  pub organization_unit_id : Option String
  pub user_type : Option String
  pub user_inputs : Option (Assoc String)
  pub user_attributes : Option (Assoc String)
  pub execution_history : Option (Assoc NodeExecutionRecord)

-- A pointer to a text, nil for the empty one.
unfoldable pub optional : String → Option String
optional s = if s == "" then none else some s

-- A parsed map, empty where there is none.
abbrev pub map_or_empty {ℓ} : {A : Type ℓ} → Option (Assoc A) → Assoc A
map_or_empty none = []
map_or_empty (some m) = m

unfoldable pub from_engine_context : EngineContext → FlowContextRow
unfolding optional
from_engine_context ctx = record {
  flow_id = ctx.flow_id;
  app_id = ctx.app_id;
  current_node_id = elim ctx.current_node [ none ↦ none | some node ↦ some node.id ];
  current_action_id = optional ctx.current_action_id;
  graph_id = elim ctx.graph [ none ↦ "" | some graph ↦ graph.id ];
  runtime_data = some ctx.runtime_data;
  is_authenticated = ctx.authenticated_user.is_authenticated;
  user_id = optional ctx.authenticated_user.user_id;
  organization_unit_id = optional ctx.authenticated_user.organization_unit_id;
  user_type = optional ctx.authenticated_user.user_type;
  user_inputs = some ctx.user_input_data;
  user_attributes = some ctx.authenticated_user.attributes;
  execution_history = some ctx.execution_history;
}

-- The node of the graph with an id, if there is an id and such a node.
unfoldable pub node_of_graph : Graph → Option String → Option Node
unfolding get_node
node_of_graph graph none = none
node_of_graph graph (some id) = get_node id graph

unfoldable pub to_engine_context : FlowContextRow → Graph → EngineContext
unfolding node_of_graph
to_engine_context row graph = record {
  flow_id = row.flow_id;
  flow_type = graph.graph_type;
  app_id = row.app_id;
  user_input_data = map_or_empty row.user_inputs;
  runtime_data = map_or_empty row.runtime_data;
  current_node = node_of_graph graph row.current_node_id;
  current_node_response = none;
  current_action_id = text_or_empty row.current_action_id;
  graph = some graph;
  authenticated_user = record {
    is_authenticated = row.is_authenticated;
    user_id = text_or_empty row.user_id;
    organization_unit_id = text_or_empty row.organization_unit_id;
    user_type = text_or_empty row.user_type;
    attributes = map_or_empty row.user_attributes;
  };
  execution_history = map_or_empty row.execution_history;
}
