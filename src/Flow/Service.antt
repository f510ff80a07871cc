-- ===== src/Flow/Service.antt =====
-- The service that runs flows, backend/internal/flow/flowexec/service.go: the loading of a context, the
-- engine, and what is kept of the flow in the store.
--
-- The applications, the graphs and the id of a new flow are parameters. Of an application only the
-- graphs are read; the context holds none, since nothing in the model reads it.
pub mod Kept
pub mod Loading
pub mod Refused
pub mod Resume
pub mod Backed
use thunder_fork.Prelude.{
  ℕ, zero, suc, String, Bool, true, false, not, Option, none, some, List, [], ◌∷◌, ◌==◌, is_empty,
  if◌then◌else◌,
}
use thunder_fork.Prelude.Assoc.{Assoc}
use thunder_fork.Prelude.Result.{Result, ok, err, ◌>>=◌, or_err}
use thunder_fork.Flow.{FlowType, authentication, registration, complete_flow, FlowStatus, no_user}
use thunder_fork.Flow.Graph.{Graph}
use thunder_fork.Flow.Context.{EngineContext, merge_maps}
use thunder_fork.Flow.Engine.{FlowStep, Registry, Outcome, finished, failed, out_of_fuel, execute}
use thunder_fork.Flow.Stored.{FlowContextRow, to_engine_context}
use thunder_fork.Flow.Store.{
  FlowRows, store_flow_context, get_flow_context, update_flow_context, delete_flow_context,
}

-- The errors of the service; `engine_error` is what the engine returns.
pub data ServiceError : Type 0 where
  invalid_app_id invalid_flow_id invalid_flow_type registration_disabled : ServiceError
  app_client_error invalid_init_context engine_error internal_error : ServiceError

pub record FlowApp : Type 0 where
  pub is_registration_flow_enabled : Bool
  pub registration_flow_graph_id : String
  pub auth_flow_graph_id : String

-- What the service of applications answers.
pub data AppAnswer : Type 0 where
  found : FlowApp → AppAnswer
  nothing not_found client_error server_error : AppAnswer

-- The faults of the database in one call of the service.
pub record Faults : Type 0 where
  pub get_fails : Bool
  pub store_fails : Bool
  pub update_fails : Bool
  pub delete_fails : Bool

-- The services that it calls.
pub record Services : Type 0 where
  pub get_application : String → AppAnswer
  pub get_graph : String → Option Graph

-- The texts of the two types; another one is none.
unfoldable pub validate_flow_type : String → Result ServiceError FlowType
validate_flow_type type =
    if type == "AUTHENTICATION"
    then ok authentication
    else if type == "REGISTRATION"
    then ok registration
    else err invalid_flow_type

-- The id of the graph of an application for a type of flow.
unfoldable pub graph_of_app : FlowType → FlowApp → Result ServiceError String
graph_of_app registration app =
    if not app.is_registration_flow_enabled
    then err registration_disabled
    else if app.registration_flow_graph_id == ""
    then err internal_error
    else ok app.registration_flow_graph_id
graph_of_app authentication app =
    if app.auth_flow_graph_id == "" then err internal_error else ok app.auth_flow_graph_id

unfoldable pub prepare_context : String → Assoc String → EngineContext → EngineContext
prepare_context action_id input_data ctx = record ctx {
  user_input_data =
      if is_empty input_data
      then ctx.user_input_data
      else merge_maps ctx.user_input_data input_data;
  current_action_id = if action_id == "" then ctx.current_action_id else action_id;
}

module _ (services : Services) where
  unfoldable pub get_flow_graph : String → FlowType → Result ServiceError String
  unfolding graph_of_app
  get_flow_graph app_id flow_type =
      if app_id == "" then err invalid_app_id else elim (services.get_application app_id) [
        | found app ↦ graph_of_app flow_type app
        | nothing ↦ err invalid_app_id
        | not_found ↦ err invalid_app_id
        | client_error ↦ err app_client_error
        | server_error ↦ err internal_error
      ]

  unfoldable pub set_application_to_context : EngineContext → Result ServiceError EngineContext
  set_application_to_context ctx = elim (services.get_application ctx.app_id) [
    | found app ↦ ok ctx
    | nothing ↦ err internal_error
    | not_found ↦ err invalid_app_id
    | client_error ↦ err app_client_error
    | server_error ↦ err internal_error
  ]

  abbrev pub new_context : String → String → Graph → EngineContext
  new_context flow_id app_id graph = record {
    flow_id = flow_id;
    flow_type = graph.graph_type;
    app_id = app_id;
    user_input_data = [];
    runtime_data = [];
    current_node = none;
    current_node_response = none;
    current_action_id = "";
    graph = some graph;
    authenticated_user = no_user;
    execution_history = [];
  }

  -- `uuid` is the id that is generated.
  unfoldable pub init_context : String → String → FlowType → Result ServiceError EngineContext
  init_context uuid app_id flow_type = do
    graph_id ← get_flow_graph app_id flow_type
    graph ← or_err internal_error (services.get_graph graph_id)
    set_application_to_context (new_context uuid app_id graph)

  unfoldable pub load_new_context :
      String → String → String → String → Assoc String → Result ServiceError EngineContext
  load_new_context uuid app_id action_id flow_type_text input_data = do
    flow_type ← validate_flow_type flow_type_text
    ctx ← init_context uuid app_id flow_type
    ok (prepare_context action_id input_data ctx)

  -- The context of a row, if its graph and its application are there.
  unfoldable pub context_of_row : FlowContextRow → Result ServiceError EngineContext
  context_of_row row = do
    graph ← or_err internal_error (services.get_graph row.graph_id)
    set_application_to_context (to_engine_context row graph)

  abbrev pub row_or_error :
      Result (Unit {0}) (Option FlowContextRow) → Result ServiceError FlowContextRow
  row_or_error (err e) = err internal_error
  row_or_error (ok none) = err invalid_flow_id
  row_or_error (ok (some row)) = ok row

  unfoldable pub load_context_from_store :
      Bool → String → FlowRows → Result ServiceError EngineContext
  load_context_from_store fault flow_id rows =
      if flow_id == ""
      then err invalid_flow_id
      else row_or_error (get_flow_context fault flow_id rows) >>= λ row. context_of_row row

  unfoldable pub load_prev_context :
      Bool → String → String → Assoc String → FlowRows → Result ServiceError EngineContext
  load_prev_context fault flow_id action_id input_data rows =
      load_context_from_store fault flow_id rows >>= λ ctx.
      ok (prepare_context action_id input_data ctx)

-- What the service answers: a step, an error, or nothing within the fuel of the engine.
pub data Reply : Type 0 where
  answered : FlowStep → Reply
  refused : ServiceError → Reply
  running : Reply

unfoldable pub remove_context : Bool → String → FlowRows → FlowRows × Bool
remove_context fault flow_id rows =
    if flow_id == "" then (rows, false) else delete_flow_context fault flow_id rows

unfoldable pub store_context : Bool → EngineContext → FlowRows → FlowRows × Bool
store_context fault ctx rows =
    if ctx.flow_id == "" then (rows, false) else store_flow_context fault ctx rows

abbrev pub is_complete : FlowStatus → Bool
is_complete complete_flow = true
is_complete _ = false

-- `updateContext`, which removes the context of a step that is complete.
unfoldable pub update_context : Faults → EngineContext → FlowStep → FlowRows → FlowRows × Bool
update_context faults ctx step rows =
    if is_complete step.status
    then remove_context faults.delete_fails ctx.flow_id rows
    else if ctx.flow_id == ""
    then (rows, false)
    else update_flow_context faults.update_fails ctx rows

-- A reply, unless the store has failed.
abbrev pub unless_failed : Reply → FlowRows × Bool → FlowRows × Reply
unless_failed reply (rows, true) = (rows, reply)
unless_failed reply (rows, false) = (rows, refused internal_error)

-- What is kept of a flow after its step.
unfoldable pub keep_step : Faults → Bool → EngineContext → FlowStep → FlowRows → FlowRows × Reply
keep_step faults is_new ctx step rows =
    if is_complete step.status
    then (if is_new
        then (rows, answered step)
        else unless_failed (answered step) (remove_context faults.delete_fails ctx.flow_id rows))
    else if is_new
    then unless_failed (answered step) (store_context faults.store_fails ctx rows)
    else unless_failed (answered step) (update_context faults ctx step rows)

-- The engine on a loaded context, and the store after it.
unfoldable pub run_context :
    Registry → ℕ → Faults → Bool → EngineContext → FlowRows → FlowRows × Reply
run_context registry fuel faults is_new ctx rows =
    let (after, outcome) = execute registry fuel ctx in
    elim outcome [
      | finished step ↦ keep_step faults is_new after step rows
      | failed ↦
          if is_new
          then (rows, refused engine_error)
          else unless_failed (refused engine_error)
              (remove_context faults.delete_fails after.flow_id rows)
      | out_of_fuel ↦ (rows, running)
    ]

-- A request of the service: with the id of a flow it goes on with that flow, without one it begins one.
pub record FlowRequest : Type 0 where
  pub app_id : String
  pub flow_id : String
  pub action_id : String
  pub flow_type : String
  pub input_data : Assoc String

abbrev pub is_new_flow : FlowRequest → Bool
is_new_flow request = request.flow_id == ""

unfoldable pub load_context :
    Services → Faults → String → FlowRequest → FlowRows → Result ServiceError EngineContext
load_context services faults uuid request rows =
    if is_new_flow request
    then load_new_context services uuid request.app_id request.action_id request.flow_type
        request.input_data
    else load_prev_context services faults.get_fails request.flow_id request.action_id
        request.input_data rows

unfoldable pub run_flow :
    Services → Registry → ℕ → Faults → String → FlowRequest → FlowRows → FlowRows × Reply
run_flow services registry fuel faults uuid request rows =
    elim (load_context services faults uuid request rows) [
      | err e ↦ (rows, refused e)
      | ok ctx ↦ run_context registry fuel faults (is_new_flow request) ctx rows
    ]

-- `InitiateFlow`: a context is stored, with runtime data, and nothing is executed. `none` is a nil
-- request; the type of the flow is a text.
unfoldable pub initiate_flow :
    Services
    → Faults
    → String
    → String
    → String
    → Assoc String
    → FlowRows
    → FlowRows × Result ServiceError String
initiate_flow services faults uuid app_id flow_type runtime_data rows =
    if app_id == ""
    then (rows, err invalid_init_context)
    else if flow_type == ""
    then (rows, err invalid_init_context)
    else elim (validate_flow_type flow_type >>= λ type. init_context services uuid app_id type) [
      | err e ↦ (rows, err e)
      | ok ctx ↦
          (let (rows', done) =
              store_context faults.store_fails (record ctx { runtime_data = runtime_data }) rows in
            if done then (rows', ok uuid) else (rows', err internal_error))
    ]
