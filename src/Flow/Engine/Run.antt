-- ===== src/Flow/Engine/Run.antt =====
-- A run of the engine over the nodes of a graph: its end, and the context there.
use thunder_fork.Prelude.{
  ℕ, zero, suc, ◌<◌, String, ◌≡◌, ◌≢◌, ◌⊎◌, inl, inr, Bool, true, false, Option, none, some,
  is_some, arith, refl, ap, subst, ◌∙◌,
}
use thunder_fork.Prelude.Assoc.{lookup}
use thunder_fork.Flow.{Node, complete_flow}
use thunder_fork.Flow.Graph.{Graph}
use thunder_fork.Flow.Context.{EngineContext}
use thunder_fork.Flow.Engine.{
  Registry, Verdict, move, answer, server_error, Outcome, finished, failed, out_of_fuel,
  engine_turn, run_nodes, execute, completed_step, set_current_execution_node,
}
use thunder_fork.Flow.Engine.Step.{IsNext, engine_turn-IsNext, IsSettled, engine_turn-IsSettled}

-- A node that the graph holds.
abbrev pub Holds : Graph → Node → Type 0
Holds graph node = (id : String) × (lookup id graph.nodes ≡ some node)

-- A rank of the nodes that falls along every edge of the graph: the graph has no cycle.
abbrev pub IsRanked : Graph → (Node → ℕ) → Type 0
IsRanked graph rank =
    (node next : Node) → Holds graph node → IsNext graph node next → rank next < rank node

abbrev is_out_of_fuel : Outcome → Bool
is_out_of_fuel out_of_fuel = true
is_out_of_fuel _ = false

module _ (registry : Registry) (graph : Graph) where
  -- What every turn preserves, a run preserves; `Q` is what is known of every node that follows another.
  pub run_nodes-preserves {ℓ κ} :
      (P : EngineContext → Type ℓ) (Q : Node → Type κ)
      → ((node next : Node) → Q node → IsNext graph node next → Q next)
      → ((turn : ℕ) (node : Node) (ctx : EngineContext)
          → Q node
          → P ctx
          → P (engine_turn registry graph turn node ctx).0)
      → (fuel turn : ℕ) (o : Option Node) (ctx : EngineContext)
      → ((node : Node) → o ≡ some node → Q node)
      → P ctx
      → P (run_nodes registry graph fuel turn o ctx).0
  unfolding run_nodes
  run_nodes-preserves P Q follow keep fuel turn none ctx q h = h
  run_nodes-preserves P Q follow keep zero turn (some node) ctx q h = h
  run_nodes-preserves P Q follow keep (suc fuel) turn (some node) ctx q h =
      by_verdict
        (λ next q'.
          run_nodes-preserves P Q follow keep fuel (suc turn) next _ q'
            (keep turn node ctx (q node refl) h))
        (engine_turn registry graph turn node ctx).1 refl
    where
      by_verdict :
          ((next : Option Node)
            → ((m : Node) → next ≡ some m → Q m)
            → P
                (run_nodes registry graph fuel
                  (suc turn)
                  next
                  (engine_turn registry graph turn node ctx).0).0)
          → (v : Verdict) → (engine_turn registry graph turn node ctx).1 ≡ v
          → P (run_nodes registry graph (suc fuel) turn (some node) ctx).0
      by_verdict ih (move next) p =
          rw (p, run_nodes)
            (ih next (λ m e.
              follow node m (q node refl)
                (engine_turn-IsNext registry graph turn node ctx m (p ∙ ap move e))))
      by_verdict ih (answer step) p = rw (p, run_nodes) (keep turn node ctx (q node refl) h)
      by_verdict ih server_error p = rw (p, run_nodes) (keep turn node ctx (q node refl) h)

  module _ (rank : Node → ℕ) (ranked : IsRanked graph rank) where
    run_nodes-enough :
        (fuel turn : ℕ) (node : Node) (ctx : EngineContext)
        → Holds graph node
        → rank node < fuel
        → is_out_of_fuel (run_nodes registry graph fuel turn (some node) ctx).1 ≡ false
    unfolding run_nodes
    run_nodes-enough zero turn node ctx held h = absurd (omega arith)
    run_nodes-enough (suc fuel) turn node ctx held h =
        by_verdict (λ next found lower. run_nodes-enough fuel (suc turn) next _ found lower)
          (engine_turn registry graph turn node ctx).1 refl
      where
        by_verdict :
            ((next : Node)
              → Holds graph next
              → rank next < fuel
              → is_out_of_fuel
                  (run_nodes registry graph fuel
                    (suc turn)
                    (some next)
                    (engine_turn registry graph turn node ctx).0).1
                ≡ false)
            → (v : Verdict) → (engine_turn registry graph turn node ctx).1 ≡ v
            → is_out_of_fuel (run_nodes registry graph (suc fuel) turn (some node) ctx).1 ≡ false
        by_verdict ih (move none) p = rw (p, run_nodes) refl
        by_verdict ih (move (some next)) p =
            let follows = engine_turn-IsNext registry graph turn node ctx next p in
            let lower : rank next < rank node = ranked node next held follows in
            rw (p, run_nodes) (ih next (follows.next_id, follows.held) (omega arith))
        by_verdict ih (answer step) p = rw (p, run_nodes) refl
        by_verdict ih server_error p = rw (p, run_nodes) refl

abbrev at_node : EngineContext → Node → EngineContext
at_node ctx node = record ctx { current_node = some node }

execute-run :
    (registry : Registry) (graph : Graph) (fuel : ℕ) (node : Node) (ctx : EngineContext)
    → set_current_execution_node ctx ≡ some (graph, node)
    → execute registry fuel ctx ≡ run_nodes registry graph fuel 0 (some node) (at_node ctx node)
unfolding execute
execute-run registry graph fuel node ctx start = rw (start, execute) refl

-- In a graph without cycles (where a rank falls along every edge) a request ends: fuel above the rank
-- of the node to begin with, which the graph holds, is enough, whatever the executors do.
pub execute-ends :
    (registry : Registry) (graph : Graph) (rank : Node → ℕ) (fuel : ℕ) (node : Node)
    (ctx : EngineContext)
    → IsRanked graph rank
    → Holds graph node
    → set_current_execution_node ctx ≡ some (graph, node)
    → rank node < fuel
    → (execute registry fuel ctx).1 ≢ out_of_fuel
execute-ends registry graph rank fuel node ctx ranked held start h e =
    let enough =
      run_nodes-enough registry graph rank ranked fuel 0 node (at_node ctx node) held h in
    cc (ap (λ r. r.1) (execute-run registry graph fuel node ctx start), e, enough)

-- How a request leaves the context: complete with no node to go on with, or with one.
abbrev pub IsResumable : EngineContext × Outcome → Type 0
IsResumable (ctx, finished step) =
    ((step.status ≡ complete_flow) × (ctx.current_node ≡ none))
    ⊎ ((step.status ≢ complete_flow) × (is_some ctx.current_node ≡ true))
IsResumable (ctx, failed) = Unit
IsResumable (ctx, out_of_fuel) = Unit

module _ (registry : Registry) (graph : Graph) where
  run_nodes-IsResumable :
      (fuel turn : ℕ) (o : Option Node) (ctx : EngineContext)
      → ctx.current_node ≡ o
      → IsResumable (run_nodes registry graph fuel turn o ctx)
  unfolding run_nodes completed_step
  run_nodes-IsResumable fuel turn none ctx h = inl (refl, h)
  run_nodes-IsResumable zero turn (some node) ctx h = tt
  run_nodes-IsResumable (suc fuel) turn (some node) ctx h =
      by_verdict (λ next e. run_nodes-IsResumable fuel (suc turn) next _ e)
        (engine_turn registry graph turn node ctx).1 refl
        (engine_turn-IsSettled registry graph turn node ctx (rw h refl))
    where
      by_verdict :
          ((next : Option Node)
            → (engine_turn registry graph turn node ctx).0.current_node ≡ next
            → IsResumable (
                run_nodes registry graph fuel
                  (suc turn)
                  next
                  (engine_turn registry graph turn node ctx).0))
          → (v : Verdict) → (engine_turn registry graph turn node ctx).1 ≡ v
          → IsSettled (engine_turn registry graph turn node ctx)
          → IsResumable (run_nodes registry graph (suc fuel) turn (some node) ctx)
      by_verdict ih (move next) p settled =
          rw (p, run_nodes)
            (ih next
              (subst (λ v. IsSettled ((engine_turn registry graph turn node ctx).0, v)) p settled))
      by_verdict ih (answer step) p settled =
          rw (p, run_nodes)
            (inr
              (subst (λ v. IsSettled ((engine_turn registry graph turn node ctx).0, v)) p settled))
      by_verdict ih server_error p settled = rw (p, run_nodes) tt

-- A request that is answered leaves the context ready for the one that follows: either the flow is
-- complete and no node is current, or it is not complete and there is a node to go on with.
pub execute-IsResumable :
    (registry : Registry) (fuel : ℕ) (ctx : EngineContext) → IsResumable (execute registry fuel ctx)
unfolding execute
execute-IsResumable registry fuel ctx = by_start (set_current_execution_node ctx) refl
  where
    by_start :
        (o : Option (Graph × Node))
        → set_current_execution_node ctx ≡ o
        → IsResumable (execute registry fuel ctx)
    by_start none p = rw (p, execute) tt
    by_start (some (graph, node)) p =
        rw (p, execute)
          (run_nodes-IsResumable registry graph fuel 0 (some node) (at_node ctx node) refl)

-- What holds of the context of a request and is preserved by every turn, holds after the request.
pub execute-preserves {ℓ κ} :
    (registry : Registry) (P : EngineContext → Type ℓ) (Q : Graph → Node → Type κ) (fuel : ℕ)
    (ctx : EngineContext)
    → ((graph : Graph) (node next : Node) → Q graph node → IsNext graph node next → Q graph next)
    → ((graph : Graph) (node : Node)
        → set_current_execution_node ctx ≡ some (graph, node)
        → Q graph node × P (at_node ctx node))
    → ((graph : Graph) (turn : ℕ) (node : Node) (c : EngineContext)
        → Q graph node
        → P c
        → P (engine_turn registry graph turn node c).0)
    → P ctx
    → P (execute registry fuel ctx).0
unfolding execute
execute-preserves registry P Q fuel ctx follow start keep h =
    by_start (set_current_execution_node ctx) refl
  where
    by_start :
        (o : Option (Graph × Node))
        → set_current_execution_node ctx ≡ o
        → P (execute registry fuel ctx).0
    by_start none p = rw (p, execute) h
    by_start (some (graph, node)) p =
        rw (p, execute)
          (run_nodes-preserves registry graph P (Q graph) (follow graph) (keep graph) fuel 0
            (some node) (at_node ctx node) (λ m e. subst (Q graph) (cc e) (start graph node p).0)
            (start graph node p).1)
