-- ===== src/Flow/Service/Refused.antt =====
-- What a request that is refused leaves of the store, flowexec/service.go.
use thunder_fork.Prelude.{
  ℕ, String, ◌≡◌, ◌⊎◌, Bool, false, arith, refl, Bool-cases, inl, inr, ap, ◌∙◌, if◌then◌else◌,
}
use thunder_fork.Prelude.Assoc.{without}
use thunder_fork.Prelude.Result.{Result, ok, err}
use thunder_fork.Flow.Context.{EngineContext}
use thunder_fork.Flow.Engine.{FlowStep, Registry, Outcome, finished, failed, out_of_fuel, execute}
use thunder_fork.Flow.Engine.Same.{execute-SameFlow}
use thunder_fork.Flow.Store.{FlowRows, store_flow_context, update_flow_context, delete_flow_context}
use thunder_fork.Flow.Service.{
  ServiceError, engine_error, Services, Faults, FlowRequest, refused, is_new_flow, remove_context,
  unless_failed, store_context, update_context, keep_step, run_context, run_flow,
}
use thunder_fork.Flow.Service.Kept.{loading, loading-id}
use thunder_fork.Flow.Service.Loading.{IsKeyed}

keep_step-refused :
    (faults : Faults) (is_new : Bool) (ctx : EngineContext) (step : FlowStep)
    (rows rows' : FlowRows) (e : ServiceError)
    → keep_step faults is_new ctx step rows ≡ (rows', refused e)
    → rows' ≡ rows
unfolding keep_step store_context store_flow_context update_context remove_context
    update_flow_context delete_flow_context
keep_step-refused faults is_new ctx step rows rows' e h = ground arith

removed :
    (fault : Bool) (flow_id : String) (rows rows' : FlowRows) (e : ServiceError)
    → unless_failed (refused engine_error) (remove_context fault flow_id rows) ≡ (rows', refused e)
    → (rows' ≡ rows) ⊎ ((e ≡ engine_error) × (rows' ≡ without flow_id rows))
unfolding remove_context delete_flow_context
removed fault flow_id rows rows' e h = ground arith

module _ (services : Services) (registry : Registry) (fuel : ℕ) (faults : Faults) (uuid : String)
    (request : FlowRequest) (rows : FlowRows) where
  -- The engine failed on a flow of the store, which was removed.
  pub record IsDropped (rows' : FlowRows) (e : ServiceError) : Type 0 where
    pub ctx : EngineContext
    pub old : is_new_flow request ≡ false
    pub load : loading services registry fuel faults uuid request rows ≡ ok ctx
    pub fails : (execute registry fuel ctx).1 ≡ failed
    pub error : e ≡ engine_error
    pub dropped : rows' ≡ without request.flow_id rows

  -- A request that is refused leaves the store as it was, unless the engine failed on a flow of the
  -- store: then the store is without that flow. It takes that every row stands under its own id.
  pub run_flow-refused :
      (rows' : FlowRows) (e : ServiceError)
      → IsKeyed rows
      → run_flow services registry fuel faults uuid request rows ≡ (rows', refused e)
      → (rows' ≡ rows) ⊎ IsDropped rows' e
  unfolding run_flow run_context
  run_flow-refused rows' e keyed h =
      by_load (loading services registry fuel faults uuid request rows) refl
    where
      by_load :
          (r : Result ServiceError EngineContext)
          → loading services registry fuel faults uuid request rows ≡ r
          → (rows' ≡ rows) ⊎ IsDropped rows' e
      by_load (err x) q = inl (ground arith)
      by_load (ok ctx) q = by_outcome (execute registry fuel ctx).1 refl
        where
          by_outcome :
              (o : Outcome) → (execute registry fuel ctx).1 ≡ o → (rows' ≡ rows) ⊎ IsDropped rows' e
          by_outcome (finished s) p = inl (
              keep_step-refused faults (is_new_flow request) (execute registry fuel ctx).0 s rows
                rows' e (ground arith))
          by_outcome out_of_fuel p = absurd (ground arith)
          by_outcome failed p = elim (Bool-cases (is_new_flow request)) [
            | inl new ↦ inl (ground arith)
            | inr old ↦
                (let after = (execute registry fuel ctx).0 in
                  let same : after.flow_id ≡ request.flow_id =
                    (execute-SameFlow registry fuel ctx).same_id
                    ∙ (loading-id services registry fuel faults uuid request rows ctx keyed q).0
                    ∙ ap (λ b. if b then uuid else request.flow_id) old in
                  elim (removed faults.delete_fails after.flow_id rows rows' e (ground arith)) [
                    | inl kept ↦ inl kept
                    | inr (error, dropped) ↦ inr (record {
                      ctx = ctx;
                      old = old;
                      load = q;
                      fails = p;
                      error = error;
                      dropped = dropped ∙ ap (λ id. without id rows) same;
                    })
                  ])
          ]
