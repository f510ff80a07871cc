-- ===== src/Flow/Engine/User.antt =====
-- Who can set the user of a flow.
use thunder_fork.Prelude.{
  ℕ, String, ◌≡◌, false, ◌⊎◌, inl, inr, Option, none, some, ◌==◌, arith, refl, ap, ◌∙◌,
}
use thunder_fork.Prelude.Result.{Result, ok, err}
use thunder_fork.Prelude.Assoc.{Assoc, lookup}
use thunder_fork.Flow.{
  FlowType, authentication, registration, Node, NodeResponse, Executor, NodeStatus, no_status,
  complete, incomplete, failure,
}
use thunder_fork.Flow.Graph.{Graph, get_start_node}
use thunder_fork.Flow.Nodes.{execute_node}
use thunder_fork.Flow.Context.{
  EngineContext, provisioning, is_authentication, may_set_user, should_update_authenticated_user,
  update_context_with_node_response, update_runtime,
}
use thunder_fork.Flow.Engine.{
  after_node, Registry, set_node_executor, recorded, conclude, process_node_response,
  process_status, go_to, resolve_to_next_node, node_context, engine_turn, execute,
  set_current_execution_node,
}
use thunder_fork.Flow.Engine.Step.{turn_of, skipped, unready, done}
use thunder_fork.Flow.Engine.Run.{execute-preserves}

-- An executor of neither of the two kinds that may set the user.
pub record IsPlain (executor : Executor) : Type 0 where
  pub no_authentication : is_authentication executor.executor_type ≡ false
  pub no_provisioning : (executor.name == provisioning) ≡ false

abbrev pub HoldsPlain : Node → Type 0
HoldsPlain node = (executor : Executor) → node.executor ≡ some executor → IsPlain executor

IsPlain-may_set_user :
    (flow_type : FlowType) (runtime : Assoc String) (executor : Executor)
    → IsPlain executor
    → may_set_user flow_type runtime executor ≡ false
unfolding may_set_user
IsPlain-may_set_user authentication runtime executor plain =
    ground (arith, plain.no_authentication, plain.no_provisioning)
IsPlain-may_set_user registration runtime executor plain =
    ground (arith, plain.no_authentication, plain.no_provisioning)

plain-keeps :
    (node : Node) (ctx : EngineContext)
    → ctx.current_node ≡ some node
    → HoldsPlain node
    → should_update_authenticated_user ctx ≡ false
unfolding should_update_authenticated_user
plain-keeps node ctx at plain = by_executor node.executor refl
  where
    by_executor :
        (o : Option Executor) → node.executor ≡ o → should_update_authenticated_user ctx ≡ false
    by_executor none p = ground (arith, at, p)
    by_executor (some executor) p = ground (
      arith,
      at,
      p,
      IsPlain-may_set_user ctx.flow_type ctx.runtime_data executor (plain executor p),
    )

updated-user :
    (node : Node) (resp : NodeResponse) (ctx : EngineContext)
    → ctx.current_node ≡ some node
    → HoldsPlain node
    → (update_context_with_node_response resp ctx).authenticated_user ≡ ctx.authenticated_user
unfolding update_context_with_node_response update_runtime
updated-user node resp ctx at plain =
    ground (arith, plain-keeps node (update_runtime resp ctx) at plain)

go_to-user :
    (ctx : EngineContext) (r : Result Unit (Option Node))
    → (go_to ctx r).0.authenticated_user ≡ ctx.authenticated_user
go_to-user ctx (ok next) = refl
go_to-user ctx (err e) = refl

process-user :
    (graph : Graph) (node : Node) (resp : NodeResponse) (ctx : EngineContext) (s : NodeStatus)
    → (process_status graph node resp ctx s).0.authenticated_user ≡ ctx.authenticated_user
unfolding process_status
process-user graph node resp ctx no_status = refl
process-user graph node resp ctx complete =
    go_to-user ctx (resolve_to_next_node graph node resp.next_node_id)
process-user graph node resp ctx incomplete = refl
process-user graph node resp ctx failure = refl

conclude-user :
    (graph : Graph) (node : Node) (resp : Option NodeResponse) (ctx : EngineContext)
    → HoldsPlain node
    → (conclude graph node resp ctx).0.authenticated_user ≡ ctx.authenticated_user
unfolding conclude process_node_response
conclude-user graph node none ctx plain = refl
conclude-user graph node (some r) ctx plain =
    process-user graph node r (update_context_with_node_response r (recorded node (some r) ctx))
      r.status
    ∙ updated-user node r (recorded node (some r) ctx) refl plain

abbrev pub OffersPlain : Registry → Type 0
OffersPlain registry =
    (name : String) (executor : Executor) → registry name ≡ some executor → IsPlain executor

ready-HoldsPlain :
    (registry : Registry) (node ready : Node)
    → OffersPlain registry
    → HoldsPlain node
    → set_node_executor registry node ≡ some ready
    → HoldsPlain ready
unfolding set_node_executor
ready-HoldsPlain registry node ready offers plain h executor e =
    let source : (node.executor ≡ some executor) ⊎ (registry node.executor_name ≡ some executor) =
      ground (arith, h, e) in
    elim source [ inl p ↦ plain executor p | inr p ↦ offers node.executor_name executor p ]

engine_turn-user :
    (registry : Registry) (graph : Graph) (turn : ℕ) (node : Node) (ctx : EngineContext)
    → OffersPlain registry
    → HoldsPlain node
    → (engine_turn registry graph turn node ctx).0.authenticated_user ≡ ctx.authenticated_user
engine_turn-user registry graph turn node ctx offers plain =
    elim (turn_of registry graph turn node ctx) [
      | skipped e ↦
          ap (λ r. r.0.authenticated_user) e ∙ go_to-user ctx (resolve_to_next_node graph node "")
      | unready e ↦ ap (λ r. r.0.authenticated_user) e
      | done ready p e ↦
          ap (λ r. r.0.authenticated_user) e
          ∙ conclude-user graph ready (execute_node ready turn (node_context ctx node)).0
              (after_node ready turn node ctx) (ready-HoldsPlain registry node ready offers plain p)
    ]

started :
    (ctx : EngineContext) (graph : Graph) (node : Node)
    → set_current_execution_node ctx ≡ some (graph, node)
    → (ctx.graph ≡ some graph)
      × ((ctx.current_node ≡ some node) ⊎ (lookup graph.start_node_id graph.nodes ≡ some node))
unfolding set_current_execution_node get_start_node
started ctx graph node e = (ground (arith, e), ground (arith, e))

-- If the registry, the graph and the current node of a context hold no executor that is of the type
-- for authentication or bears the name of provisioning, then no request changes the user of the flow,
-- whatever users its executors answer with.
pub execute-user :
    (registry : Registry) (fuel : ℕ) (ctx : EngineContext)
    → OffersPlain registry
    → ((graph : Graph) (id : String) (node : Node)
        → ctx.graph ≡ some graph
        → lookup id graph.nodes ≡ some node
        → HoldsPlain node)
    → ((node : Node) → ctx.current_node ≡ some node → HoldsPlain node)
    → (execute registry fuel ctx).0.authenticated_user ≡ ctx.authenticated_user
execute-user registry fuel ctx offers held current =
    execute-preserves registry (λ c. c.authenticated_user ≡ ctx.authenticated_user)
      (λ graph node. (ctx.graph ≡ some graph) × HoldsPlain node) fuel ctx
      (λ graph node next (g, q) n. (g, held graph n.next_id next g n.held))
      (λ graph node e.
        let (g, source) = started ctx graph node e in
        (
          (
            g,
            elim source [
              | inl p ↦ current node p
              | inr p ↦ held graph graph.start_node_id node g p
            ],
          ),
          refl,
        ))
      (λ graph turn node c q k. engine_turn-user registry graph turn node c offers q.1 ∙ k) refl
