-- ===== src/Flow/Engine.antt =====
-- The flow engine, backend/internal/flow/flowexec/engine.go, over the context of flowexec/model.go.
--
-- A node that the engine holds is a value: the executor that `setNodeExecutor` puts into it stays in
-- the context, not in the graph, so that a later visit asks the registry again. The events that the
-- engine publishes are left out.
pub mod Step
pub mod History
pub mod Run
pub mod User
pub mod Same
use thunder_fork.Prelude.{
  ℕ, zero, suc, ◌+◌, String, true, false, not, ◌&&◌, ◌||◌, Option, none, some, List, [], ◌∷◌, ◌++◌,
  ◌==◌, is_empty, if◌then◌else◌,
}
use thunder_fork.Prelude.Result.{Result, ok, err}
use thunder_fork.Prelude.Assoc.{Assoc}
use thunder_fork.Flow.{
  FlowStatus, no_flow_status, complete_flow, incomplete_flow, error_flow, FlowStepType,
  no_step_type, view_step, redirection_step, task_execution, decision, NodeStatus, no_status,
  complete, incomplete, failure, view, redirection, InputData, Action, NodeResponse, NodeContext,
  Node, Executor,
}
use thunder_fork.Flow.Graph.{Graph, get_node, get_start_node}
use thunder_fork.Flow.Nodes.{should_execute, execute_node}
use thunder_fork.Flow.Context.{
  EngineContext, merge_maps, update_context_with_node_response, record_node_execution,
}

-- `FlowStep` with its `FlowData`; no code of the engine sets `StepID`.
pub record FlowStep : Type 0 where
  pub flow_id : String
  pub step_type : FlowStepType
  pub status : FlowStatus
  pub inputs : List InputData
  pub redirect_url : String
  pub actions : List Action
  pub additional_data : Assoc String
  pub assertion : String
  pub failure_reason : String

unfoldable pub new_step : String → FlowStep
new_step flow_id = record {
  flow_id = flow_id;
  step_type = no_step_type;
  status = no_flow_status;
  inputs = [];
  redirect_url = "";
  actions = [];
  additional_data = [];
  assertion = "";
  failure_reason = "";
}

-- The executors by their names; none is an error.
abbrev pub Registry : Type 0
Registry = String → Option Executor

-- The node with its executor; none is an internal server error.
unfoldable pub set_node_executor : Registry → Node → Option Node
set_node_executor registry node = elim node.node_type [
  | task_execution ↦ elim node.executor [
    | some executor ↦ some node
    | none ↦ if node.executor_name == "" then none else elim (registry node.executor_name) [
      | none ↦ none
      | some executor ↦
          some (record node { executor = some executor; executor_name = executor.name })
    ]
  ]
  | t ↦ some node
]

abbrev pub first_or_empty : List String → String
first_or_empty [] = ""
first_or_empty (id ∷ ids) = id

-- The id of the node that follows: for a decision the chosen one, else the first of the list.
unfoldable pub next_node_id_of : Node → String → String
next_node_id_of node chosen = elim node.node_type [
  | decision ↦ chosen
  | t ↦ first_or_empty node.next_node_list
]

-- `resolveToNextNode`, with the id that the response names (the empty text where there is none). The
-- error is a node that the graph does not hold.
unfoldable pub resolve_to_next_node : Graph → Node → String → Result Unit (Option Node)
unfolding get_node next_node_id_of
resolve_to_next_node graph node chosen =
    let next = next_node_id_of node chosen in
    if next == ""
    then ok none
    else elim (get_node next graph) [ none ↦ err tt | some m ↦ ok (some m) ]

unfoldable pub resolve_step_for_redirection : NodeResponse → FlowStep → Option FlowStep
resolve_step_for_redirection resp step =
    if resp.redirect_url == ""
    then none
    else some (record step {
      additional_data = merge_maps step.additional_data resp.additional_data;
      redirect_url = resp.redirect_url;
      inputs = step.inputs ++ resp.required_data;
      status = incomplete_flow;
      step_type = redirection_step;
    })

unfoldable pub resolve_step_details_for_prompt : NodeResponse → FlowStep → Option FlowStep
resolve_step_details_for_prompt resp step =
    if is_empty resp.required_data && is_empty resp.actions
    then none
    else some (record step {
      inputs = step.inputs ++ resp.required_data;
      actions = if is_empty resp.actions then step.actions else resp.actions;
      status = incomplete_flow;
      step_type = view_step;
    })

unfoldable pub handle_incomplete_response : NodeResponse → FlowStep → Option FlowStep
unfolding resolve_step_for_redirection resolve_step_details_for_prompt
handle_incomplete_response resp step = elim resp.response_type [
  | redirection ↦ resolve_step_for_redirection resp step
  | view ↦ resolve_step_details_for_prompt resp step
  | t ↦ none
]

-- What a turn of the loop ends in: the next node, the step of the flow, an internal server error.
pub data Verdict : Type 0 where
  move : Option Node → Verdict
  answer : FlowStep → Verdict
  server_error : Verdict

-- The context after the choice of the next node, and the verdict.
abbrev pub go_to : EngineContext → Result Unit (Option Node) → EngineContext × Verdict
go_to ctx (ok next) = (record ctx { current_node = next }, move next)
go_to ctx (err e) = (ctx, server_error)

abbrev pub answer_or_error : Option FlowStep → Verdict
answer_or_error none = server_error
answer_or_error (some step) = answer step

-- The cases of the status of a response.
unfoldable pub process_status :
    Graph → Node → NodeResponse → EngineContext → NodeStatus → EngineContext × Verdict
process_status graph node resp ctx no_status = (ctx, server_error)
process_status graph node resp ctx complete =
    go_to ctx (resolve_to_next_node graph node resp.next_node_id)
process_status graph node resp ctx incomplete =
    (ctx, answer_or_error (handle_incomplete_response resp (new_step ctx.flow_id)))
process_status graph node resp ctx failure = (
  ctx,
  answer
      (record (new_step ctx.flow_id) { status = error_flow; failure_reason = resp.failure_reason }),
)

unfoldable pub process_node_response :
    Graph → Node → NodeResponse → EngineContext → EngineContext × Verdict
unfolding process_status
process_node_response graph node resp ctx = process_status graph node resp ctx resp.status

unfoldable pub node_context : EngineContext → Node → NodeContext
node_context ctx node = record {
  flow_id = ctx.flow_id;
  flow_type = ctx.flow_type;
  app_id = ctx.app_id;
  current_action_id = ctx.current_action_id;
  node_properties = [];
  node_input_data = node.input_data;
  user_input_data = ctx.user_input_data;
  runtime_data = ctx.runtime_data;
  authenticated_user = ctx.authenticated_user;
  execution_history = ctx.execution_history;
}

-- The context with the execution of its current node in the history.
abbrev pub recorded : Node → Option NodeResponse → EngineContext → EngineContext
recorded node resp ctx = record ctx {
  current_node = some node;
  execution_history = record_node_execution node resp ctx.execution_history;
}

-- A node that has been executed: its record, and what its response comes to.
unfoldable pub conclude :
    Graph → Node → Option NodeResponse → EngineContext → EngineContext × Verdict
unfolding update_context_with_node_response process_node_response
conclude graph node none ctx = (recorded node none ctx, server_error)
conclude graph node (some r) ctx =
    process_node_response graph node r
      (update_context_with_node_response r (recorded node (some r) ctx))

-- The context with the runtime data that the execution of a node leaves, whose context shares the map.
abbrev pub after_node : Node → ℕ → Node → EngineContext → EngineContext
after_node ready turn node ctx = record ctx {
  runtime_data = (execute_node ready turn (node_context ctx node)).1;
}

-- One turn of the loop of `Execute`, for the current node of the context.
unfoldable pub engine_turn : Registry → Graph → ℕ → Node → EngineContext → EngineContext × Verdict
unfolding set_node_executor conclude
engine_turn registry graph turn node ctx =
    if not (should_execute node (node_context ctx node))
    then go_to ctx (resolve_to_next_node graph node "")
    else elim (set_node_executor registry node) [
      | none ↦ (ctx, server_error)
      | some ready ↦
          conclude graph ready (execute_node ready turn (node_context ctx node)).0
            (after_node ready turn node ctx)
    ]

-- What `Execute` returns: a step, an internal server error, or no answer within the fuel.
pub data Outcome : Type 0 where
  finished : FlowStep → Outcome
  failed : Outcome
  out_of_fuel : Outcome

abbrev assertion_of : Option NodeResponse → String
assertion_of none = ""
assertion_of (some resp) = resp.assertion

-- The step of a flow that has come to its end.
unfoldable pub completed_step : EngineContext → FlowStep
completed_step ctx = record (new_step ctx.flow_id) {
  status = complete_flow;
  assertion = assertion_of ctx.current_node_response;
}

-- The loop: the fuel counts the nodes, the turn those that were visited.
unfoldable pub run_nodes :
    Registry → Graph → ℕ → ℕ → Option Node → EngineContext → EngineContext × Outcome
run_nodes registry graph fuel turn none ctx = (ctx, finished (completed_step ctx))
run_nodes registry graph zero turn (some node) ctx = (ctx, out_of_fuel)
run_nodes registry graph (suc fuel) turn (some node) ctx =
    let (after, verdict) = engine_turn registry graph turn node ctx in
    elim verdict [
      | move next ↦ run_nodes registry graph fuel (suc turn) next after
      | answer step ↦ (after, finished step)
      | server_error ↦ (after, failed)
    ]

-- `setCurrentExecutionNode`: the node to begin with, which is the start node if there is none.
unfoldable pub set_current_execution_node : EngineContext → Option (Graph × Node)
unfolding get_start_node
set_current_execution_node ctx = elim ctx.graph [
  | none ↦ none
  | some graph ↦ elim ctx.current_node [
    | some node ↦ some (graph, node)
    | none ↦ elim (get_start_node graph) [ err e ↦ none | ok node ↦ some (graph, node) ]
  ]
]

unfoldable pub execute : Registry → ℕ → EngineContext → EngineContext × Outcome
execute registry fuel ctx = elim (set_current_execution_node ctx) [
  | none ↦ (ctx, failed)
  | some (graph, node) ↦
      run_nodes registry graph fuel 0 (some node) (record ctx { current_node = some node })
]
