-- ===== src/Flow/Nodes.antt =====
-- The operations of nodes: node.go, prompt_node.go, decision_node.go and task_execution_node.go of
-- backend/internal/flow/core.
pub mod Choice
use thunder_fork.Prelude.{
  ℕ, String, Bool, true, false, not, Option, none, some, List, [], ◌∷◌, ◌++◌, ◌==◌, contains,
  remove_first, is_empty, if◌then◌else◌,
}
use thunder_fork.Prelude.Assoc.{Assoc, has}
use thunder_fork.Flow.{
  NodeType, task_execution, prompt_only, decision, complete, incomplete, failure, NodeResponseType,
  no_type, view, redirection, retry, ExecutorResponse, ExecutorStatus, exec_complete,
  exec_user_input_required, exec_external_redirection, exec_retry, exec_failure, no_exec_status,
  InputData, Action, view_action, NodeResponse, no_response, NodeContext, Node, Executor,
  NodeStatus,
}
use thunder_fork.Flow.Placeholder.{resolve_placeholder}

-- `newDecisionNode`, `newPromptOnlyNode` and `newTaskExecutionNode`
unfoldable pub new_node : NodeType → String → Assoc String → Bool → Bool → Node
new_node node_type id properties is_start_node is_final_node = record {
  id = id;
  node_type = node_type;
  properties = properties;
  is_start_node = is_start_node;
  is_final_node = is_final_node;
  next_node_list = [];
  previous_node_list = [];
  input_data = [];
  condition = none;
  executor_name = "";
  executor = none;
}

unfoldable pub should_execute : Node → NodeContext → Bool
unfolding resolve_placeholder
should_execute node ctx = elim node.condition [
  | none ↦ true
  | some condition ↦ elim node.node_type [
    | decision ↦ true
    | t ↦ resolve_placeholder ctx condition.key == condition.expected
  ]
]

-- The change of a list by `AddNextNodeID` and `AddPreviousNodeID`.
unfoldable pub add_id : String → List String → List String
add_id id ids = if id == "" then ids else if contains id ids then ids else ids ++ (id ∷ [])

-- The change of a list by `RemoveNextNodeID` and `RemovePreviousNodeID`.
unfoldable pub remove_id : String → List String → List String
remove_id id ids = if id == "" then ids else remove_first id ids

abbrev pub add_next_node_id : String → Node → Node
add_next_node_id id node = record node { next_node_list = add_id id node.next_node_list }

abbrev pub remove_next_node_id : String → Node → Node
remove_next_node_id id node = record node { next_node_list = remove_id id node.next_node_list }

abbrev pub add_previous_node_id : String → Node → Node
add_previous_node_id id node = record node {
  previous_node_list = add_id id node.previous_node_list;
}

abbrev pub remove_previous_node_id : String → Node → Node
remove_previous_node_id id node = record node {
  previous_node_list = remove_id id node.previous_node_list;
}

-- The inputs of the list that the user has not given.
unfoldable pub missing_data : NodeContext → List InputData → List InputData
missing_data ctx [] = []
missing_data ctx (input ∷ inputs) =
    let rest = missing_data ctx inputs in
    if has input.name ctx.user_input_data then rest else input ∷ rest

-- Whether one of the inputs is required.
unfoldable pub any_required : List InputData → Bool
any_required [] = false
any_required (input ∷ inputs) = if input.required then true else any_required inputs

-- `checkInputData`: whether required data is missing, and the data to ask for.
unfoldable pub check_input_data : Node → NodeContext → Bool × List InputData
unfolding missing_data any_required
check_input_data node ctx =
    if is_empty node.input_data
    then (false, [])
    else if is_empty ctx.user_input_data
    then (true, node.input_data)
    else (let missing = missing_data ctx node.input_data in (any_required missing, missing))

unfoldable pub execute_prompt : Node → NodeContext → NodeResponse
unfolding check_input_data
execute_prompt node ctx =
    let (lacks, asked) = check_input_data node ctx in
    if lacks
    then record no_response { status = incomplete; response_type = view; required_data = asked }
    else record no_response { status = complete; required_data = asked }

-- The first of the ids that is the one of the action, or the empty text.
unfoldable pub find_next : String → List String → String
find_next action_id [] = ""
find_next action_id (id ∷ ids) = if id == action_id then id else find_next action_id ids

unfoldable pub trigger_action : Node → String → NodeResponse
unfolding find_next
trigger_action node action_id =
    if is_empty node.next_node_list
    then record no_response {
      status = failure;
      failure_reason = "No next nodes defined for the decision node.";
    }
    else (let next = find_next action_id node.next_node_list in
        if next == ""
        then record no_response {
          status = failure;
          failure_reason = "No matching next node found for the triggered action ID.";
        }
        else record no_response { status = complete; next_node_id = next })

unfoldable pub get_actions_list : List String → List Action
get_actions_list [] = []
get_actions_list (id ∷ ids) = record { action_type = view_action; id = id } ∷ get_actions_list ids

-- None is an internal server error, here and below.
unfoldable pub prepare_action_input : Node → Option NodeResponse
unfolding get_actions_list
prepare_action_input node =
    let actions = get_actions_list node.next_node_list in
    if is_empty actions
    then none
    else some (record no_response { status = incomplete; response_type = view; actions = actions })

unfoldable pub execute_decision : Node → NodeContext → Option NodeResponse
unfolding trigger_action prepare_action_input
execute_decision node ctx =
    if not (ctx.current_action_id == "")
    then some (trigger_action node ctx.current_action_id)
    else prepare_action_input node

unfoldable pub status_of : ExecutorStatus → NodeStatus × NodeResponseType
status_of exec_complete = (complete, no_type)
status_of exec_user_input_required = (incomplete, view)
status_of exec_external_redirection = (incomplete, redirection)
status_of exec_retry = (incomplete, retry)
status_of exec_failure = (failure, no_type)
status_of no_exec_status = (incomplete, no_type)

unfoldable pub build_node_response : ExecutorResponse → NodeResponse
unfolding status_of
build_node_response resp = record {
  status = (status_of resp.status).0;
  response_type = (status_of resp.status).1;
  failure_reason = resp.failure_reason;
  required_data = resp.required_data;
  additional_data = resp.additional_data;
  redirect_url = resp.redirect_url;
  actions = [];
  next_node_id = "";
  runtime_data = resp.runtime_data;
  authenticated_user = resp.authenticated_user;
  assertion = resp.assertion;
}

-- The response that a node makes of the one of its executor.
abbrev pub task_response : Option ExecutorResponse → Option NodeResponse
task_response none = none
task_response (some resp) = some (build_node_response resp)

-- The response, and the runtime data after the execution.
unfoldable pub execute_task : Node → ℕ → NodeContext → Option NodeResponse × Assoc String
execute_task node turn ctx = elim node.executor [
  | none ↦ (none, ctx.runtime_data)
  | some executor ↦
      (let ran = executor.execute turn (record ctx { node_properties = node.properties }) in
        (task_response ran.0, ran.1))
]

-- `Execute`, with the runtime data that it leaves.
unfoldable pub execute_node : Node → ℕ → NodeContext → Option NodeResponse × Assoc String
unfolding execute_prompt execute_decision execute_task
execute_node node turn ctx = elim node.node_type [
  | task_execution ↦ execute_task node turn ctx
  | prompt_only ↦ (some (execute_prompt node ctx), ctx.runtime_data)
  | decision ↦ (execute_decision node ctx, ctx.runtime_data)
]
