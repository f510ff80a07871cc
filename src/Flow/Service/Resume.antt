-- ===== src/Flow/Service/Resume.antt =====
-- What the next request of a flow begins with, flowexec/service.go.
use thunder_fork.Prelude.{
  ℕ, String, ◌≡◌, true, false, some, ◌==◌, arith, refl, eq_refl, Bool-cases, inl, inr, ap, sym,
  subst, ◌∙◌,
}
use thunder_fork.Prelude.Assoc.{Assoc, lookup, lookup-insert}
use thunder_fork.Prelude.Result.{ok}
use thunder_fork.Flow.Graph.{Graph}
use thunder_fork.Flow.Context.{EngineContext}
use thunder_fork.Flow.Engine.{FlowStep, Registry, execute}
use thunder_fork.Flow.Engine.Same.{execute-SameFlow}
use thunder_fork.Flow.Stored.{FlowContextRow, to_engine_context, from_engine_context}
use thunder_fork.Flow.Stored.Reload.{to_engine_context-from_engine_context}
use thunder_fork.Flow.Store.{FlowRows, store_flow_context, update_flow_context, update_row}
use thunder_fork.Flow.Service.{
  Services, Faults, FlowRequest, answered, is_complete, is_new_flow, load_context_from_store,
  load_context, prepare_context, store_context, update_context, keep_step, run_flow,
}
use thunder_fork.Flow.Service.Kept.{loading, answered_from, loading-id}
use thunder_fork.Flow.Service.Loading.{IsKeyed, flow_of, loaded_prev}
use thunder_fork.Flow.Service.Backed.{
  FindsById, reloaded, IsBacked, context_of_row-IsBacked, prepared-IsBacked, SameFlow-IsBacked,
  load-stored, load_new-IsBacked,
}

module _ (faults : Faults) (ctx : EngineContext) (step : FlowStep) (rows rows' : FlowRows) where
  stored_new :
      is_complete step.status ≡ false
      → keep_step faults true ctx step rows ≡ (rows', answered step)
      → lookup ctx.flow_id rows' ≡ some (from_engine_context ctx)
  unfolding keep_step store_context store_flow_context
  stored_new open_step h = ground (
    arith,
    eq_refl ctx.flow_id,
    lookup-insert ctx.flow_id ctx.flow_id (from_engine_context ctx) rows,
  )

  stored_old :
      (old : FlowContextRow)
      → is_complete step.status ≡ false
      → lookup ctx.flow_id rows ≡ some old
      → keep_step faults false ctx step rows ≡ (rows', answered step)
      → lookup ctx.flow_id rows' ≡ some (update_row (from_engine_context ctx) old)
  unfolding keep_step update_context update_flow_context
  stored_old old open_step there h = ground (
    arith,
    eq_refl ctx.flow_id,
    lookup-insert ctx.flow_id ctx.flow_id (update_row (from_engine_context ctx) old) rows,
  )

graph_id-from_engine_context :
    (ctx : EngineContext) (graph : Graph)
    → ctx.graph ≡ some graph
    → (from_engine_context ctx).graph_id ≡ graph.id
unfolding from_engine_context
graph_id-from_engine_context ctx graph h = ground arith

prepared-app :
    (action_id : String) (input_data : Assoc String) (row : FlowContextRow) (graph : Graph)
    → (prepare_context action_id input_data (to_engine_context row graph)).app_id ≡ row.app_id
unfolding prepare_context to_engine_context
prepared-app action_id input_data row graph = refl

-- A row that is updated is loaded as the new one, if it is of the same flow and application.
updated_loads :
    (new old : FlowContextRow) (graph : Graph)
    → old.flow_id ≡ new.flow_id
    → old.app_id ≡ new.app_id
    → to_engine_context (update_row new old) graph ≡ to_engine_context new graph
unfolding to_engine_context update_row
updated_loads new old graph e f = ground arith

module _ (services : Services) (registry : Registry) (fuel : ℕ) (faults : Faults) (uuid : String)
    (request : FlowRequest) (rows : FlowRows) where
  -- What the next request of the flow loads: the context that this one has left, reloaded.
  abbrev pub Resumes : FlowRows → Type 0
  Resumes rows' =
      (ctx : EngineContext) × (graph : Graph) × (loading services registry fuel faults uuid request
          rows
        ≡ ok ctx)
      × ((execute registry fuel ctx).0.graph ≡ some graph)
      × (load_context_from_store services false (flow_of uuid request) rows'
          ≡ ok (reloaded graph (execute registry fuel ctx).0))

  new-Resumes :
      (rows' : FlowRows) (step : FlowStep) (ctx : EngineContext)
      → FindsById services
      → (uuid == "") ≡ false
      → is_new_flow request ≡ true
      → loading services registry fuel faults uuid request rows ≡ ok ctx
      → ctx.flow_id ≡ uuid
      → is_complete step.status ≡ false
      → keep_step faults true (execute registry fuel ctx).0 step rows ≡ (rows', answered step)
      → Resumes rows'
  unfolding load_context
  new-Resumes rows' step ctx finds n new load id open_step kept =
      let (graph, graph_id, b) =
        load_new-IsBacked services uuid request.app_id request.action_id request.flow_type
          request.input_data ctx (ground arith) in
      let after = (execute registry fuel ctx).0 in
      let same = execute-SameFlow registry fuel ctx in
      let b' = SameFlow-IsBacked services ctx after graph graph_id same b in
      let row = from_engine_context after in
      let at_flow : after.flow_id ≡ flow_of uuid request = ground (arith, same.same_id) in
      let at_graph : row.graph_id ≡ graph_id =
        graph_id-from_engine_context after graph b'.of_graph ∙ finds graph_id graph b'.at_id in
      let stored : lookup (flow_of uuid request) rows' ≡ some row =
        subst (λ i. lookup i rows' ≡ some row) at_flow
          (stored_new faults after step rows rows' open_step kept) in
      (
        ctx,
        graph,
        load,
        b'.of_graph,
        load-stored services (flow_of uuid request) rows' row after graph (ground arith) stored
            (subst (IsBacked services after graph) (sym at_graph) b')
            (to_engine_context-from_engine_context after graph b'.of_graph b'.of_type),
      )

  old-Resumes :
      (rows' : FlowRows) (step : FlowStep) (ctx : EngineContext)
      → IsKeyed rows
      → is_new_flow request ≡ false
      → loading services registry fuel faults uuid request rows ≡ ok ctx
      → is_complete step.status ≡ false
      → keep_step faults false (execute registry fuel ctx).0 step rows ≡ (rows', answered step)
      → Resumes rows'
  unfolding load_context from_engine_context update_row
  old-Resumes rows' step ctx keyed old load open_step kept =
      let (row, loaded, at, from, prepared, n) =
        loaded_prev services faults.get_fails request.flow_id request.action_id request.input_data
          rows ctx (ground arith) in
      let (graph, b, whole) = context_of_row-IsBacked services row loaded from in
      let after = (execute registry fuel ctx).0 in
      let same = execute-SameFlow registry fuel ctx in
      let b' = SameFlow-IsBacked services ctx after graph row.graph_id same (
        subst (λ c. IsBacked services c graph row.graph_id) (sym prepared)
          (prepared-IsBacked services request.action_id request.input_data loaded graph row.graph_id
            b)) in
      let at_flow : after.flow_id ≡ flow_of uuid request =
        same.same_id
        ∙ (loading-id services registry fuel faults uuid request rows ctx keyed load).0 in
      let at_request : flow_of uuid request ≡ request.flow_id = ground arith in
      let found : lookup after.flow_id rows ≡ some row = rw (at_flow ∙ at_request) at in
      let new_row = update_row (from_engine_context after) row in
      let stored : lookup (flow_of uuid request) rows' ≡ some new_row =
        subst (λ i. lookup i rows' ≡ some new_row) at_flow
          (stored_old faults after step rows rows' row open_step found kept) in
      let same_flow : row.flow_id ≡ after.flow_id =
        keyed request.flow_id row at ∙ sym (at_flow ∙ at_request) in
      let same_app : row.app_id ≡ after.app_id = sym (
        same.same_app
        ∙ ap (λ c. c.app_id)
            (prepared ∙ ap (prepare_context request.action_id request.input_data) whole)
        ∙ prepared-app request.action_id request.input_data row graph) in
      (
        ctx,
        graph,
        load,
        b'.of_graph,
        load-stored services (flow_of uuid request) rows' new_row after graph (ground arith) stored
            b'
            (updated_loads (from_engine_context after) row graph same_flow same_app
              ∙ to_engine_context-from_engine_context after graph b'.of_graph b'.of_type),
      )

  -- If graphs are found under their own ids, every row stands under its own, and the id for a new flow is
  -- not empty: a request that is answered with a step that does not complete the flow leaves it in the
  -- store so that the next request of the flow loads the context that this one ended with, but for the
  -- response of the last node, and with the current node as the graph has it.
  pub run_flow-Resumes :
      (rows' : FlowRows) (step : FlowStep)
      → FindsById services
      → IsKeyed rows
      → (uuid == "") ≡ false
      → run_flow services registry fuel faults uuid request rows ≡ (rows', answered step)
      → is_complete step.status ≡ false
      → Resumes rows'
  run_flow-Resumes rows' step finds keyed n h open_step =
      let (ctx, load, finish, kept) =
        answered_from services registry fuel faults uuid request rows rows' step h in
      let (id, there) = loading-id services registry fuel faults uuid request rows ctx keyed load in
      elim (Bool-cases (is_new_flow request)) [
        | inl new ↦
            new-Resumes rows' step ctx finds n new load (ground arith) open_step (rw (← new) kept)
        | inr old ↦ old-Resumes rows' step ctx keyed old load open_step (rw (← old) kept)
      ]
