-- ===== src/Flow/Service/Kept.antt =====
-- What the store holds of a flow after a request, flowexec/service.go.
use thunder_fork.Prelude.{
  ℕ, String, ◌≡◌, Bool, true, false, not, Option, none, some, ◌==◌, arith, refl, eq_refl, is_some,
  some_of_is_some, Bool-cases, inl, inr, ap, sym, subst, ◌∙◌,
}
use thunder_fork.Prelude.Assoc.{lookup, lookup-insert, lookup-without}
use thunder_fork.Prelude.Result.{Result, ok, err}
use thunder_fork.Flow.Context.{EngineContext}
use thunder_fork.Flow.Engine.{FlowStep, Registry, Outcome, finished, failed, out_of_fuel, execute}
use thunder_fork.Flow.Engine.Same.{execute-SameFlow}
use thunder_fork.Flow.Stored.{FlowContextRow, from_engine_context}
use thunder_fork.Flow.Store.{
  FlowRows, store_flow_context, update_flow_context, delete_flow_context, update_row,
}
use thunder_fork.Flow.Service.{
  ServiceError, Services, Faults, FlowRequest, answered, is_complete, is_new_flow, load_context,
  prepare_context, remove_context, store_context, update_context, keep_step, run_context, run_flow,
}
use thunder_fork.Flow.Service.Loading.{
  IsKeyed, flow_of, context_of_row-id, loaded_prev, loaded_new-id,
}

module _ (faults : Faults) (ctx : EngineContext) (step : FlowStep) (rows rows' : FlowRows) where
  kept_new :
      (ctx.flow_id == "") ≡ false
      → lookup ctx.flow_id rows ≡ none
      → keep_step faults true ctx step rows ≡ (rows', answered step)
      → is_some (lookup ctx.flow_id rows') ≡ not (is_complete step.status)
  unfolding keep_step store_context store_flow_context
  kept_new n fresh h = ground (
    arith,
    eq_refl ctx.flow_id,
    lookup-insert ctx.flow_id ctx.flow_id (from_engine_context ctx) rows,
  )

  kept_old :
      (old : FlowContextRow)
      → (ctx.flow_id == "") ≡ false
      → lookup ctx.flow_id rows ≡ some old
      → keep_step faults false ctx step rows ≡ (rows', answered step)
      → is_some (lookup ctx.flow_id rows') ≡ not (is_complete step.status)
  unfolding keep_step update_context remove_context update_flow_context delete_flow_context
  kept_old old n there h = ground (
    arith,
    eq_refl ctx.flow_id,
    lookup-insert ctx.flow_id ctx.flow_id (update_row (from_engine_context ctx) old) rows,
    lookup-without ctx.flow_id ctx.flow_id rows,
  )

  kept_either :
      (is_new : Bool)
      → (ctx.flow_id == "") ≡ false
      → (is_new ≡ true → lookup ctx.flow_id rows ≡ none)
      → (is_new ≡ false → is_some (lookup ctx.flow_id rows) ≡ true)
      → keep_step faults is_new ctx step rows ≡ (rows', answered step)
      → is_some (lookup ctx.flow_id rows') ≡ not (is_complete step.status)
  kept_either true n fresh there h = kept_new n (fresh refl) h
  kept_either false n fresh there h =
      let (old, at) = some_of_is_some (lookup ctx.flow_id rows) (there refl) in kept_old old n at h

-- The store is written at the flow of the context only.
keep_step-frame :
    (faults : Faults) (is_new : Bool) (ctx : EngineContext) (step : FlowStep) (rows : FlowRows)
    (other : String)
    → (ctx.flow_id == other) ≡ false
    → lookup other (keep_step faults is_new ctx step rows).0 ≡ lookup other rows
unfolding keep_step store_context store_flow_context update_context remove_context
    update_flow_context delete_flow_context
keep_step-frame faults is_new ctx step rows other n = by_row (lookup ctx.flow_id rows) refl
  where
    by_row :
        (o : Option FlowContextRow)
        → lookup ctx.flow_id rows ≡ o
        → lookup other (keep_step faults is_new ctx step rows).0 ≡ lookup other rows
    by_row none e = ground (
      arith,
      lookup-insert ctx.flow_id other (from_engine_context ctx) rows,
      lookup-without ctx.flow_id other rows,
    )
    by_row (some old) e = ground (
      arith,
      lookup-insert ctx.flow_id other (from_engine_context ctx) rows,
      lookup-insert ctx.flow_id other (update_row (from_engine_context ctx) old) rows,
      lookup-without ctx.flow_id other rows,
    )

keep_step-step :
    (faults : Faults) (is_new : Bool) (ctx : EngineContext) (s step : FlowStep)
    (rows rows' : FlowRows)
    → keep_step faults is_new ctx s rows ≡ (rows', answered step)
    → s ≡ step
unfolding keep_step
keep_step-step faults is_new ctx s step rows rows' h = ground arith

module _ (services : Services) (registry : Registry) (fuel : ℕ) (faults : Faults) (uuid : String)
    (request : FlowRequest) (rows : FlowRows) where
  abbrev pub loading : Result ServiceError EngineContext
  loading = load_context services faults uuid request rows

  -- An answer comes of a context that was loaded, and of the store after the engine has run it.
  pub answered_from :
      (rows' : FlowRows) (step : FlowStep)
      → run_flow services registry fuel faults uuid request rows ≡ (rows', answered step)
      → (ctx : EngineContext) × (loading ≡ ok ctx)
        × ((execute registry fuel ctx).1 ≡ finished step)
        × (keep_step faults (is_new_flow request) (execute registry fuel ctx).0 step rows
            ≡ (rows', answered step))
  unfolding run_flow run_context
  answered_from rows' step h = by_load loading refl
    where
      by_load :
          (r : Result ServiceError EngineContext)
          → loading ≡ r
          → (ctx : EngineContext) × (loading ≡ ok ctx)
            × ((execute registry fuel ctx).1 ≡ finished step)
            × (keep_step faults (is_new_flow request) (execute registry fuel ctx).0 step rows
                ≡ (rows', answered step))
      by_load (err e) q = absurd (ground arith)
      by_load (ok ctx) q = by_outcome (execute registry fuel ctx).1 refl
        where
          by_outcome :
              (o : Outcome)
              → (execute registry fuel ctx).1 ≡ o
              → (ctx : EngineContext) × (loading ≡ ok ctx)
                × ((execute registry fuel ctx).1 ≡ finished step)
                × (keep_step faults (is_new_flow request) (execute registry fuel ctx).0 step rows
                    ≡ (rows', answered step))
          by_outcome (finished s) p =
              let kept : keep_step faults (is_new_flow request) (execute registry fuel ctx).0 s rows
                  ≡ (rows', answered step) =
                ground arith in
              let same : s ≡ step =
                keep_step-step faults (is_new_flow request) (execute registry fuel ctx).0 s step
                  rows rows' kept in
              (
                ctx,
                q,
                p ∙ ap finished same,
                subst
                    (λ t.
                      keep_step faults (is_new_flow request) (execute registry fuel ctx).0 t rows
                      ≡ (rows', answered step))
                    same kept,
              )
          by_outcome failed p = absurd (ground arith)
          by_outcome out_of_fuel p = absurd (ground arith)

  -- The id of a context that was loaded, and whether the store held it.
  pub loading-id :
      (ctx : EngineContext)
      → IsKeyed rows
      → loading ≡ ok ctx
      → (ctx.flow_id ≡ flow_of uuid request)
        × (is_new_flow request ≡ false → is_some (lookup request.flow_id rows) ≡ true)
  unfolding load_context prepare_context
  loading-id ctx keyed h = elim (Bool-cases (request.flow_id == "")) [
    | inl new ↦ (ground (arith, loaded_new-id services uuid request ctx), λ old. cc)
    | inr old ↦
        (let (row, loaded, at, from, prepared, n) =
            loaded_prev services faults.get_fails request.flow_id request.action_id
              request.input_data rows ctx (ground arith) in
          (
            ground (
              arith,
              context_of_row-id services row loaded from,
              keyed request.flow_id row at,
              ap (λ c. c.flow_id) prepared,
            ),
            λ o. ground arith,
          ))
  ]

  -- A request that is answered, for a flow under a new id or one of the store: after it the store has
  -- the flow exactly if the step is not the completion of the flow, and it has all other flows as it
  -- had them.
  pub run_flow-kept :
      (rows' : FlowRows) (step : FlowStep)
      → IsKeyed rows
      → (uuid == "") ≡ false
      → lookup uuid rows ≡ none
      → run_flow services registry fuel faults uuid request rows ≡ (rows', answered step)
      → (is_some (lookup (flow_of uuid request) rows') ≡ not (is_complete step.status))
        × ((other : String)
            → (flow_of uuid request == other) ≡ false
            → lookup other rows' ≡ lookup other rows)
  run_flow-kept rows' step keyed n fresh h =
      let (ctx, load, finish, kept) = answered_from rows' step h in
      let (id, there) = loading-id ctx keyed load in
      let after = (execute registry fuel ctx).0 in
      let same : after.flow_id ≡ flow_of uuid request =
        (execute-SameFlow registry fuel ctx).same_id ∙ id in
      (
        subst (λ i. is_some (lookup i rows') ≡ not (is_complete step.status)) same
            (kept_either faults after step rows rows' (is_new_flow request) (rw same (ground arith))
              (λ new. rw same (ground (arith, fresh))) (λ old. rw same (ground (arith, there old)))
              kept),
        λ other apart.
            ap (λ r. lookup other r.0) (sym kept)
            ∙ keep_step-frame faults (is_new_flow request) after step rows other (rw same apart),
      )
