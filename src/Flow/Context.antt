-- ===== src/Flow/Context.antt =====
-- The context of a flow, `EngineContext` of backend/internal/flow/flowexec/model.go, and how the engine
-- of engine.go brings it up to date with the response of a node.
use thunder_fork.Prelude.{
  ℕ, suc, String, Bool, true, false, Option, none, some, [], ◌∷◌, ◌++◌, ◌==◌, length, is_empty,
  if◌then◌else◌,
}
use thunder_fork.Prelude.Assoc.{Assoc, lookup, insert}
use thunder_fork.Flow.{
  FlowType, authentication, registration, FlowStatus, complete_flow, incomplete_flow, error_flow,
  task_execution, no_status, complete, incomplete, failure, ExecutorType, authentication_executor,
  AuthenticatedUser, NodeResponse, NodeExecutionRecord, Node, Executor, text_or_empty,
}
use thunder_fork.Flow.Graph.{Graph}

pub record EngineContext : Type 0 where
  pub flow_id : String
  pub flow_type : FlowType
  pub app_id : String
  pub user_input_data : Assoc String
  pub runtime_data : Assoc String
  pub current_node : Option Node
  pub current_node_response : Option NodeResponse
  pub current_action_id : String
  pub graph : Option Graph
  pub authenticated_user : AuthenticatedUser
  pub execution_history : Assoc NodeExecutionRecord

-- `MergeStringMaps`: the pairs of the second map are written to the first.
unfoldable pub merge_maps : Assoc String → Assoc String → Assoc String
merge_maps target [] = target
merge_maps target ((key, v) ∷ source) = merge_maps (insert key v target) source

-- `common.ExecutorNameProvisioning`
abbrev pub provisioning : String
provisioning = "ProvisioningExecutor"

abbrev pub is_authentication : ExecutorType → Bool
is_authentication authentication_executor = true
is_authentication _ = false

-- What the engine lets an executor of a flow do, by the runtime data.
unfoldable pub may_set_user : FlowType → Assoc String → Executor → Bool
may_set_user authentication runtime executor =
    if is_authentication executor.executor_type
    then true
    else if text_or_empty (lookup "userEligibleForProvisioning" runtime) == "true"
    then executor.name == provisioning
    else false
may_set_user registration runtime executor =
    if text_or_empty (lookup "skipProvisioning" runtime) == "true"
    then is_authentication executor.executor_type
    else executor.name == provisioning

unfoldable pub should_update_authenticated_user : EngineContext → Bool
unfolding may_set_user
should_update_authenticated_user ctx = elim ctx.current_node [
  | none ↦ false
  | some node ↦ elim node.node_type [
    | task_execution ↦ elim node.executor [
      | none ↦ false
      | some executor ↦ may_set_user ctx.flow_type ctx.runtime_data executor
    ]
    | t ↦ false
  ]
]

-- The user of a response, with the attributes of the one before.
unfoldable pub merge_user : AuthenticatedUser → AuthenticatedUser → AuthenticatedUser
merge_user before user =
    if is_empty before.attributes
    then user
    else record user { attributes = merge_maps before.attributes user.attributes }

-- The id of the user as runtime data, if there is one and none is set.
unfoldable pub keep_user_id : String → Assoc String → Assoc String
keep_user_id user_id runtime =
    if user_id == ""
    then runtime
    else if text_or_empty (lookup "userID" runtime) == ""
    then insert "userID" user_id runtime
    else runtime

-- The part of the update before the user.
unfoldable pub update_runtime : NodeResponse → EngineContext → EngineContext
update_runtime resp ctx = record ctx {
  current_node_response = some resp;
  current_action_id = "";
  runtime_data = merge_maps ctx.runtime_data resp.runtime_data;
}

unfoldable pub update_context_with_node_response : NodeResponse → EngineContext → EngineContext
unfolding update_runtime should_update_authenticated_user merge_user keep_user_id
update_context_with_node_response resp ctx =
    let updated = update_runtime resp ctx in
    if should_update_authenticated_user updated
    then record updated {
      authenticated_user = merge_user ctx.authenticated_user resp.authenticated_user;
      runtime_data = keep_user_id resp.authenticated_user.user_id updated.runtime_data;
    }
    else updated

-- `createExecutionRecord`
unfoldable pub create_execution_record : Node → ℕ → NodeExecutionRecord
create_execution_record node step = record {
  node_id = node.id;
  node_type = node.node_type;
  executor_name = elim node.executor [ none ↦ "" | some executor ↦ executor.name ];
  executor_type = elim node.executor [ none ↦ none | some executor ↦ some executor.executor_type ];
  step = step;
  status = incomplete_flow;
  executions = [];
}

-- The status of an attempt; none is the error of a node.
unfoldable pub attempt_status : Option NodeResponse → FlowStatus
attempt_status none = error_flow
attempt_status (some resp) = elim resp.status [
  | complete ↦ complete_flow
  | incomplete ↦ incomplete_flow
  | failure ↦ error_flow
  | no_status ↦ incomplete_flow
]

unfoldable pub add_attempt : Option NodeResponse → NodeExecutionRecord → NodeExecutionRecord
unfolding attempt_status
add_attempt resp rec = record rec {
  executions =
      rec.executions
      ++ (record { attempt = suc (length rec.executions); status = attempt_status resp } ∷ []);
  status = attempt_status resp;
}

unfoldable pub record_node_execution :
    Node → Option NodeResponse → Assoc NodeExecutionRecord → Assoc NodeExecutionRecord
unfolding create_execution_record add_attempt
record_node_execution node resp history = elim (lookup node.id history) [
  | none ↦
      insert node.id (add_attempt resp (create_execution_record node (suc (length history))))
        history
  | some rec ↦ insert node.id (add_attempt resp rec) history
]
