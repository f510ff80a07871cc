-- ===== src/Flow/Service/Loading.antt =====
-- Which flow a context that is loaded belongs to, flowexec/service.go.
use thunder_fork.Prelude.{
  String, ◌≡◌, Bool, false, Option, none, some, ◌==◌, arith, refl, if◌then◌else◌,
}
use thunder_fork.Prelude.Assoc.{Assoc, lookup}
use thunder_fork.Prelude.Result.{Result, ok, err}
use thunder_fork.Flow.{FlowType}
use thunder_fork.Flow.Graph.{Graph}
use thunder_fork.Flow.Context.{EngineContext}
use thunder_fork.Flow.Stored.{FlowContextRow, to_engine_context}
use thunder_fork.Flow.Store.{FlowRows, get_flow_context}
use thunder_fork.Flow.Service.{
  ServiceError, Services, FlowRequest, is_new_flow, get_flow_graph, set_application_to_context,
  init_context, new_context, load_new_context, context_of_row, load_context_from_store,
  load_prev_context, prepare_context, validate_flow_type,
}

-- Every row stands under its own id.
abbrev pub IsKeyed : FlowRows → Type 0
IsKeyed rows = (id : String) (row : FlowContextRow) → lookup id rows ≡ some row → row.flow_id ≡ id

-- The id of the flow that a request is about.
abbrev pub flow_of : String → FlowRequest → String
flow_of uuid request = if is_new_flow request then uuid else request.flow_id

module _ (services : Services) where
  pub set_application-same :
      (ctx ctx' : EngineContext) → set_application_to_context services ctx ≡ ok ctx' → ctx' ≡ ctx
  unfolding set_application_to_context
  set_application-same ctx ctx' h = ground arith

  pub context_of_row-id :
      (row : FlowContextRow) (ctx : EngineContext)
      → context_of_row services row ≡ ok ctx
      → ctx.flow_id ≡ row.flow_id
  unfolding context_of_row to_engine_context
  context_of_row-id row ctx h = by_graph (services.get_graph row.graph_id) refl
    where
      by_graph :
          (o : Option Graph) → services.get_graph row.graph_id ≡ o → ctx.flow_id ≡ row.flow_id
      by_graph none e = absurd (ground arith)
      by_graph (some graph) e =
          ground (arith, set_application-same (to_engine_context row graph) ctx)

  init_context-id :
      (uuid app_id : String) (flow_type : FlowType) (ctx : EngineContext)
      → init_context services uuid app_id flow_type ≡ ok ctx
      → ctx.flow_id ≡ uuid
  unfolding init_context
  init_context-id uuid app_id flow_type ctx h =
      by_id (get_flow_graph services app_id flow_type) refl
    where
      by_id :
          (r : Result ServiceError String)
          → get_flow_graph services app_id flow_type ≡ r
          → ctx.flow_id ≡ uuid
      by_id (err e) q = absurd (ground arith)
      by_id (ok graph_id) q = by_graph (services.get_graph graph_id) refl
        where
          by_graph : (o : Option Graph) → services.get_graph graph_id ≡ o → ctx.flow_id ≡ uuid
          by_graph none e = absurd (ground arith)
          by_graph (some graph) e =
              ground (arith, set_application-same (new_context services uuid app_id graph) ctx)

  -- A context that was loaded from the store: its row, and the context that the row comes to.
  pub loaded_prev :
      (fault : Bool) (flow_id action_id : String) (input_data : Assoc String) (rows : FlowRows)
      (ctx : EngineContext)
      → load_prev_context services fault flow_id action_id input_data rows ≡ ok ctx
      → (row : FlowContextRow) × (loaded : EngineContext) × (lookup flow_id rows ≡ some row)
        × (context_of_row services row ≡ ok loaded)
        × (ctx ≡ prepare_context action_id input_data loaded)
        × ((flow_id == "") ≡ false)
  unfolding load_prev_context load_context_from_store get_flow_context
  loaded_prev fault flow_id action_id input_data rows ctx h = by_row (lookup flow_id rows) refl
    where
      by_row :
          (o : Option FlowContextRow)
          → lookup flow_id rows ≡ o
          → (row : FlowContextRow) × (loaded : EngineContext) × (lookup flow_id rows ≡ some row)
            × (context_of_row services row ≡ ok loaded)
            × (ctx ≡ prepare_context action_id input_data loaded)
            × ((flow_id == "") ≡ false)
      by_row none e = absurd (ground arith)
      by_row (some row) e = by_context (context_of_row services row) refl
        where
          by_context :
              (r : Result ServiceError EngineContext)
              → context_of_row services row ≡ r
              → (row : FlowContextRow) × (loaded : EngineContext) × (lookup flow_id rows ≡ some row)
                × (context_of_row services row ≡ ok loaded)
                × (ctx ≡ prepare_context action_id input_data loaded)
                × ((flow_id == "") ≡ false)
          by_context (err x) q = absurd (ground arith)
          by_context (ok loaded) q = (row, loaded, e, q, ground arith, ground arith)

  pub loaded_new-id :
      (uuid : String) (request : FlowRequest) (ctx : EngineContext)
      → load_new_context services uuid request.app_id request.action_id request.flow_type
          request.input_data
        ≡ ok ctx
      → ctx.flow_id ≡ uuid
  unfolding load_new_context prepare_context
  loaded_new-id uuid request ctx h = by_type (validate_flow_type request.flow_type) refl
    where
      by_type :
          (r : Result ServiceError FlowType)
          → validate_flow_type request.flow_type ≡ r
          → ctx.flow_id ≡ uuid
      by_type (err e) q = absurd (ground arith)
      by_type (ok type) q = by_context (init_context services uuid request.app_id type) refl
        where
          by_context :
              (r : Result ServiceError EngineContext)
              → init_context services uuid request.app_id type ≡ r
              → ctx.flow_id ≡ uuid
          by_context (err e) p = absurd (ground arith)
          by_context (ok fresh) p = ground (arith, init_context-id uuid request.app_id type fresh p)
