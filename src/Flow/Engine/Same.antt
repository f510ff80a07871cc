-- ===== src/Flow/Engine/Same.antt =====
-- What no request changes in the context of a flow: its id, its type, its application and its graph.
use thunder_fork.Prelude.{ℕ, ◌≡◌, Option, none, some, arith, subst, sym}
use thunder_fork.Prelude.Result.{Result, ok, err}
use thunder_fork.Flow.{Node, NodeResponse, NodeStatus, no_status, complete, incomplete, failure}
use thunder_fork.Flow.Graph.{Graph}
use thunder_fork.Flow.Nodes.{execute_node}
use thunder_fork.Flow.Context.{EngineContext, update_context_with_node_response, update_runtime}
use thunder_fork.Flow.Engine.{
  after_node, Registry, go_to, recorded, conclude, process_node_response, process_status,
  resolve_to_next_node, node_context, engine_turn, execute,
}
use thunder_fork.Flow.Engine.Step.{turn_of, skipped, unready, done}
use thunder_fork.Flow.Engine.Run.{execute-preserves}

pub record SameFlow (before after : EngineContext) : Type 0 where
  pub same_id : after.flow_id ≡ before.flow_id
  pub same_type : after.flow_type ≡ before.flow_type
  pub same_app : after.app_id ≡ before.app_id
  pub same_graph : after.graph ≡ before.graph

go_to-SameFlow :
    (ctx : EngineContext) (r : Result Unit (Option Node)) → SameFlow ctx (go_to ctx r).0
go_to-SameFlow ctx (ok next) = ground arith
go_to-SameFlow ctx (err e) = ground arith

updated-SameFlow :
    (resp : NodeResponse) (ctx : EngineContext)
    → SameFlow ctx (update_context_with_node_response resp ctx)
unfolding update_context_with_node_response update_runtime
updated-SameFlow resp ctx = ground arith

process-SameFlow :
    (graph : Graph) (node : Node) (resp : NodeResponse) (ctx : EngineContext) (s : NodeStatus)
    → SameFlow ctx (process_status graph node resp ctx s).0
unfolding process_status
process-SameFlow graph node resp ctx no_status = ground arith
process-SameFlow graph node resp ctx complete =
    go_to-SameFlow ctx (resolve_to_next_node graph node resp.next_node_id)
process-SameFlow graph node resp ctx incomplete = ground arith
process-SameFlow graph node resp ctx failure = ground arith

conclude-SameFlow :
    (graph : Graph) (node : Node) (resp : Option NodeResponse) (ctx : EngineContext)
    → SameFlow ctx (conclude graph node resp ctx).0
unfolding conclude process_node_response
conclude-SameFlow graph node none ctx = ground arith
conclude-SameFlow graph node (some r) ctx =
    let updated = update_context_with_node_response r (recorded node (some r) ctx) in
    ground (
      arith,
      updated-SameFlow r (recorded node (some r) ctx),
      process-SameFlow graph node r updated r.status,
    )

engine_turn-SameFlow :
    (registry : Registry) (graph : Graph) (turn : ℕ) (node : Node) (ctx : EngineContext)
    → SameFlow ctx (engine_turn registry graph turn node ctx).0
engine_turn-SameFlow registry graph turn node ctx = elim (turn_of registry graph turn node ctx) [
  | skipped e ↦
      subst (λ r. SameFlow ctx r.0) (sym e)
        (go_to-SameFlow ctx (resolve_to_next_node graph node ""))
  | unready e ↦ subst (λ r. SameFlow ctx r.0) (sym e) (ground arith)
  | done ready p e ↦
      (let same =
          conclude-SameFlow graph ready (execute_node ready turn (node_context ctx node)).0
            (after_node ready turn node ctx) in
        subst (λ r. SameFlow ctx r.0) (sym e)
          (record {
            same_id = same.same_id;
            same_type = same.same_type;
            same_app = same.same_app;
            same_graph = same.same_graph;
          }))
]

-- A request keeps the id, the type, the application and the graph of its flow.
pub execute-SameFlow :
    (registry : Registry) (fuel : ℕ) (ctx : EngineContext)
    → SameFlow ctx (execute registry fuel ctx).0
execute-SameFlow registry fuel ctx =
    execute-preserves registry (SameFlow ctx) (λ graph node. Unit {0}) fuel ctx
      (λ graph node next q n. tt) (λ graph node p. (tt, ground arith))
      (λ graph turn node c q same. ground (arith, engine_turn-SameFlow registry graph turn node c))
      (ground arith)
