-- ===== src/Flow.antt =====
-- The data of a flow: backend/internal/flow/common, flow/core/model.go and node.go, and what the
-- engine reads of an authenticated user (authn/common/model.go).
--
-- All nodes that the factory makes are of the three types of `NodeType`. The values of properties and
-- of user attributes are texts. An executor is an interface: its answer may depend on the turn of the
-- engine, which stands for the world outside; none is an error or no answer. Times are left out, and
-- so is the application, which only executors read.
pub mod Placeholder
pub mod Graph
pub mod Nodes
pub mod Context
pub mod Engine
pub mod Stored
pub mod Store
pub mod Service
pub mod Examples
pub mod GraphExamples
pub mod ServiceExamples
use thunder_fork.Prelude.{
  ℕ, String, Bool, true, false, Option, none, some, List, [], ◌∷◌, ◌==◌, if◌then◌else◌,
}
use thunder_fork.Prelude.Assoc.{Assoc}

pub data FlowType : Type 0 where
  authentication registration : FlowType

pub data FlowStatus : Type 0 where
  no_flow_status complete_flow incomplete_flow error_flow : FlowStatus

pub data FlowStepType : Type 0 where
  no_step_type view_step redirection_step : FlowStepType

pub data NodeType : Type 0 where
  task_execution prompt_only decision : NodeType

pub data NodeStatus : Type 0 where
  no_status complete incomplete failure : NodeStatus

pub data NodeResponseType : Type 0 where
  no_type view redirection retry : NodeResponseType

pub data ExecutorStatus : Type 0 where
  no_exec_status exec_complete exec_user_input_required : ExecutorStatus
  exec_external_redirection exec_failure exec_retry : ExecutorStatus

pub data ExecutorType : Type 0 where
  authentication_executor registration_executor utility_executor : ExecutorType

pub record InputData : Type 0 where
  pub name : String
  pub input_type : String
  pub required : Bool
  pub options : List String

pub data ActionType : Type 0 where
  view_action user_input_action : ActionType

pub record Action : Type 0 where
  pub action_type : ActionType
  pub id : String

pub record AuthenticatedUser : Type 0 where
  pub is_authenticated : Bool
  pub user_id : String
  pub organization_unit_id : String
  pub user_type : String
  pub attributes : Assoc String

-- The zero value.
abbrev pub no_user : AuthenticatedUser
no_user = record {
  is_authenticated = false;
  user_id = "";
  organization_unit_id = "";
  user_type = "";
  attributes = [];
}

pub record NodeResponse : Type 0 where
  pub status : NodeStatus
  pub response_type : NodeResponseType
  pub failure_reason : String
  pub required_data : List InputData
  pub additional_data : Assoc String
  pub redirect_url : String
  pub actions : List Action
  pub next_node_id : String
  pub runtime_data : Assoc String
  pub authenticated_user : AuthenticatedUser
  pub assertion : String

-- The zero value.
abbrev pub no_response : NodeResponse
no_response = record {
  status = no_status;
  response_type = no_type;
  failure_reason = "";
  required_data = [];
  additional_data = [];
  redirect_url = "";
  actions = [];
  next_node_id = "";
  runtime_data = [];
  authenticated_user = no_user;
  assertion = "";
}

pub record ExecutorResponse : Type 0 where
  pub status : ExecutorStatus
  pub required_data : List InputData
  pub additional_data : Assoc String
  pub redirect_url : String
  pub runtime_data : Assoc String
  pub authenticated_user : AuthenticatedUser
  pub assertion : String
  pub failure_reason : String

pub record ExecutionAttempt : Type 0 where
  pub attempt : ℕ
  pub status : FlowStatus

-- `executor_type` is none where no executor was set.
pub record NodeExecutionRecord : Type 0 where
  pub node_id : String
  pub node_type : NodeType
  pub executor_name : String
  pub executor_type : Option ExecutorType
  pub step : ℕ
  pub status : FlowStatus
  pub executions : List ExecutionAttempt

pub record NodeContext : Type 0 where
  pub flow_id : String
  pub flow_type : FlowType
  pub app_id : String
  pub current_action_id : String
  pub node_properties : Assoc String
  pub node_input_data : List InputData
  pub user_input_data : Assoc String
  pub runtime_data : Assoc String
  pub authenticated_user : AuthenticatedUser
  pub execution_history : Assoc NodeExecutionRecord

pub record NodeCondition : Type 0 where
  pub key : String
  pub expected : String

-- `ExecutorInterface`. An executor gets the map of runtime data itself and may write to it: it answers with
-- what it leaves there, also where its response is an error, which is none.
pub record Executor : Type 0 where
  pub name : String
  pub executor_type : ExecutorType
  pub execute : ℕ → NodeContext → Option ExecutorResponse × Assoc String

-- `node`, and the two fields of `taskExecutionNode`.
pub record Node : Type 0 where
  pub id : String
  pub node_type : NodeType
  pub properties : Assoc String
  pub is_start_node : Bool
  pub is_final_node : Bool
  pub next_node_list : List String
  pub previous_node_list : List String
  pub input_data : List InputData
  pub condition : Option NodeCondition
  pub executor_name : String
  pub executor : Option Executor

-- `m[key]` of a map of texts.
abbrev pub text_or_empty : Option String → String
text_or_empty none = ""
text_or_empty (some s) = s
