-- ===== src/Flow/ServiceExamples.antt =====
-- Concrete requests of the flow service: tests, and its theorems at concrete inputs.
use thunder_fork.Prelude.{
  String, ◌≡◌, ◌⊎◌, true, false, none, some, [], ◌∷◌, ◌==◌, refl, is_some, arith, eq_iff,
  if◌then◌else◌,
}
use thunder_fork.Prelude.Assoc.{without, lookup, insert}
use thunder_fork.Flow.{prompt_only, incomplete_flow, view_step}
use thunder_fork.Flow.Examples.{graph, registry, name_input}
use thunder_fork.Flow.Graph.{get_start_node}
use thunder_fork.Flow.Nodes.{should_execute, execute_node}
use thunder_fork.Flow.Context.{merge_maps, record_node_execution}
use thunder_fork.Flow.Engine.{
  resolve_to_next_node, Registry, FlowStep, new_step, engine_turn, execute, run_nodes,
  set_current_execution_node, node_context, handle_incomplete_response,
}
use thunder_fork.Flow.Stored.{to_engine_context, FlowContextRow}
use thunder_fork.Flow.Store.{delete_flow_context, get_flow_context, FlowRows, store_flow_context}
use thunder_fork.Flow.Service.{
  remove_context, load_prev_context, load_context_from_store, context_of_row, Services, found,
  not_found, Faults, FlowRequest, answered, refused, run_flow, run_context, keep_step,
  store_context, load_context, load_new_context, init_context, get_flow_graph, prepare_context,
  validate_flow_type, set_application_to_context, registration_disabled, engine_error,
}
use thunder_fork.Flow.Service.Kept.{run_flow-kept}
use thunder_fork.Flow.Service.Loading.{IsKeyed}
use thunder_fork.Flow.Service.Refused.{IsDropped, run_flow-refused}
use thunder_fork.Flow.Service.Resume.{Resumes, run_flow-Resumes}
use thunder_fork.Flow.Service.Backed.{FindsById}

abbrev services : Services
services = record {
  get_application = λ id.
      if id == "app"
      then found (record {
        is_registration_flow_enabled = false;
        registration_flow_graph_id = "g";
        auth_flow_graph_id = "g";
      })
      else not_found;
  get_graph = λ id. if id == "g" then some graph else none;
}

abbrev no_faults : Faults
no_faults = record {
  get_fails = false;
  store_fails = false;
  update_fails = false;
  delete_fails = false;
}

abbrev request : String → FlowRequest
request type = record {
  app_id = "app";
  flow_id = "";
  action_id = "";
  flow_type = type;
  input_data = [];
}

abbrev asked : FlowStep
asked = record {
  flow_id = "f1";
  step_type = view_step;
  status = incomplete_flow;
  inputs = name_input ∷ [];
  redirect_url = "";
  actions = [];
  additional_data = [];
  assertion = "";
  failure_reason = "";
}

-- The row of the flow that waits at the prompt.
abbrev waiting_row : FlowContextRow
waiting_row = record {
  flow_id = "f1";
  app_id = "app";
  current_node_id = some "ask";
  current_action_id = none;
  graph_id = "g";
  runtime_data = some [];
  is_authenticated = false;
  user_id = none;
  organization_unit_id = none;
  user_type = none;
  user_inputs = some [];
  user_attributes = some [];
  execution_history = some (
      (
        "ask",
        record {
          node_id = "ask";
          node_type = prompt_only;
          executor_name = "";
          executor_type = none;
          step = 1;
          status = incomplete_flow;
          executions = record { attempt = 1; status = incomplete_flow } ∷ [];
        },
      )
      ∷ []);
}

first_run :
    run_flow services registry 2 no_faults "f1" (request "AUTHENTICATION") []
    ≡ (("f1", waiting_row) ∷ [], answered asked)
unfolding run_flow load_context load_new_context init_context get_flow_graph
    set_application_to_context prepare_context validate_flow_type run_context keep_step
    store_context store_flow_context execute set_current_execution_node get_start_node lookup insert
    run_nodes engine_turn should_execute execute_node node_context handle_incomplete_response
    merge_maps record_node_execution new_step
first_run = refl

refused_registration :
    run_flow services registry 2 no_faults "f1" (request "REGISTRATION") []
    ≡ ([], refused registration_disabled)
unfolding run_flow load_context load_new_context init_context get_flow_graph validate_flow_type
refused_registration = refl

finds : FindsById services
finds id g h = ground (arith, eq_iff id "g")

run_flow-kept_example :
    (is_some (lookup "f1" (("f1", waiting_row) ∷ [])) ≡ true)
    × ((other : String)
        → ("f1" == other) ≡ false
        → lookup other (("f1", waiting_row) ∷ []) ≡ lookup other [])
unfolding lookup
run_flow-kept_example =
    run_flow-kept services registry 2 no_faults "f1" (request "AUTHENTICATION") []
      (("f1", waiting_row) ∷ []) asked (λ id row h. cc) refl refl first_run

run_flow-Resumes_example :
    Resumes services registry 2 no_faults "f1"
      (request "AUTHENTICATION")
      []
      (("f1", waiting_row) ∷ [])
unfolding lookup
run_flow-Resumes_example =
    run_flow-Resumes services registry 2 no_faults "f1" (request "AUTHENTICATION") []
      (("f1", waiting_row) ∷ []) asked finds (λ id row h. cc) refl first_run refl

abbrev waiting : FlowRows
waiting = ("f1", waiting_row) ∷ []

abbrev empty_registry : Registry
empty_registry name = none

abbrev answer : FlowRequest
answer = record {
  app_id = "";
  flow_id = "f1";
  action_id = "";
  flow_type = "";
  input_data = ("username", "x") ∷ [];
}

-- The flow goes on to a task whose executor is not registered.
broken_run :
    run_flow services empty_registry 2 no_faults "f2" answer waiting ≡ ([], refused engine_error)
unfolding run_flow load_context run_context load_prev_context load_context_from_store
    get_flow_context lookup context_of_row set_application_to_context to_engine_context execute
    set_current_execution_node prepare_context run_nodes engine_turn should_execute execute_node
    node_context merge_maps insert resolve_to_next_node remove_context delete_flow_context without
broken_run = refl

row-IsKeyed : IsKeyed waiting
unfolding lookup
row-IsKeyed id row h = ground (arith, eq_iff "f1" id)

run_flow-refused_example :
    ([] ≡ waiting)
    ⊎ IsDropped services empty_registry 2 no_faults "f2" answer waiting [] engine_error
run_flow-refused_example =
    run_flow-refused services empty_registry 2 no_faults "f2" answer waiting [] engine_error
      row-IsKeyed broken_run
