-- ===== src/Flow/Engine/History.antt =====
-- The history of a flow: the nodes in the order of their first execution, each with its attempts.
use thunder_fork.Prelude.{
  ℕ, suc, ◌+◌, String, ◌≡◌, Option, none, some, List, [], ◌∷◌, ◌++◌, ◌==◌, length, arith, refl,
  Bool-cases, inl, inr, sym, ap, subst, ◌∙◌, eq_iff,
}
use thunder_fork.Prelude.Result.{Result, ok, err}
use thunder_fork.Prelude.Assoc.{Assoc, lookup, insert}
use thunder_fork.Flow.{
  Node, NodeResponse, NodeExecutionRecord, ExecutionAttempt, NodeStatus, no_status, complete,
  incomplete, failure,
}
use thunder_fork.Flow.Graph.{Graph}
use thunder_fork.Flow.Context.{
  EngineContext, create_execution_record, add_attempt, record_node_execution,
  update_context_with_node_response, update_runtime,
}
use thunder_fork.Flow.Engine.{
  after_node, Registry, go_to, recorded, conclude, process_node_response, process_status,
  engine_turn, execute, resolve_to_next_node, node_context,
}
use thunder_fork.Flow.Nodes.{execute_node}
use thunder_fork.Flow.Engine.Step.{turn_of, skipped, unready, done}
use thunder_fork.Flow.Engine.Run.{execute-preserves}

-- The attempts bear the numbers from `n` on.
abbrev pub IsNumbered : ℕ → List ExecutionAttempt → Type 0
IsNumbered n [] = Unit {0}
IsNumbered n (a ∷ attempts) = (a.attempt ≡ n) × IsNumbered (suc n) attempts

-- The records bear the steps from `n` on, each under the id of its node, with attempts from 1 on.
abbrev pub IsHistory : ℕ → Assoc NodeExecutionRecord → Type 0
IsHistory n [] = Unit {0}
IsHistory n ((id, rec) ∷ history) =
    (rec.step ≡ n) × (rec.node_id ≡ id) × IsNumbered 1 rec.executions × IsHistory (suc n) history

IsNumbered-append :
    (n : ℕ) (attempts : List ExecutionAttempt) (a : ExecutionAttempt)
    → IsNumbered n attempts
    → a.attempt ≡ n + length attempts
    → IsNumbered n (attempts ++ (a ∷ []))
IsNumbered-append n [] a h e = (omega arith, tt)
IsNumbered-append n (b ∷ attempts) a h e =
    (h.0, IsNumbered-append (suc n) attempts a h.1 (omega arith))

-- A record that is new stands at the end.
IsHistory-insert_new :
    (n : ℕ) (id : String) (rec : NodeExecutionRecord) (history : Assoc NodeExecutionRecord)
    → IsHistory n history
    → lookup id history ≡ none
    → (rec.step ≡ n + length history) × (rec.node_id ≡ id) × IsNumbered 1 rec.executions
    → IsHistory n (insert id rec history)
unfolding lookup insert
IsHistory-insert_new n id rec [] h absent (s, i, a) = (omega arith, i, a, tt)
IsHistory-insert_new n id rec ((j, r) ∷ history) (hs, hi, ha, hr) absent (s, i, a) =
    elim (Bool-cases (j == id)) [
      | inl e ↦ absurd (ground (arith, absent, e))
      | inr e ↦
          (let rest : IsHistory (suc n) (insert id rec history) =
              IsHistory-insert_new (suc n) id rec history hr (ground (arith, absent, e))
                (omega arith, i, a) in
            simp e (hs, hi, ha, rest))
    ]

-- A record that is there is written in its place.
IsHistory-insert_old :
    (n : ℕ) (id : String) (rec new : NodeExecutionRecord) (history : Assoc NodeExecutionRecord)
    → IsHistory n history
    → lookup id history ≡ some rec
    → (new.step ≡ rec.step) × (new.node_id ≡ rec.node_id)
    → (IsNumbered 1 rec.executions → IsNumbered 1 new.executions)
    → IsHistory n (insert id new history)
unfolding lookup insert
IsHistory-insert_old n id rec new [] h found same more = absurd (cc found)
IsHistory-insert_old n id rec new ((j, r) ∷ history) (hs, hi, ha, hr) found (s, i) more =
    elim (Bool-cases (j == id)) [
      | inl e ↦
          (let here : r ≡ rec = ground (arith, found, e) in
            let same_id : j ≡ id = ground (arith, e, eq_iff j id) in
            simp e (
              s ∙ ap (λ x. x.step) (sym here) ∙ hs,
              i ∙ ap (λ x. x.node_id) (sym here) ∙ hi ∙ same_id,
              more (subst (λ x. IsNumbered 1 x.executions) here ha),
              hr,
            ))
      | inr e ↦
          (let rest : IsHistory (suc n) (insert id new history) =
              IsHistory-insert_old (suc n) id rec new history hr (ground (arith, found, e)) (s, i)
                more in
            simp e (hs, hi, ha, rest))
    ]

add_attempt-IsNumbered :
    (resp : Option NodeResponse) (rec : NodeExecutionRecord)
    → IsNumbered 1 rec.executions
    → IsNumbered 1 (add_attempt resp rec).executions
unfolding add_attempt
add_attempt-IsNumbered resp rec h = IsNumbered-append 1 rec.executions _ h (omega arith)

-- The record of an execution keeps the history in order: a node that is executed for the first time
-- bears the next step, another one the next attempt.
pub record_node_execution-IsHistory :
    (node : Node) (resp : Option NodeResponse) (history : Assoc NodeExecutionRecord)
    → IsHistory 1 history
    → IsHistory 1 (record_node_execution node resp history)
unfolding record_node_execution create_execution_record add_attempt
record_node_execution-IsHistory node resp history h = by_record (lookup node.id history) refl
  where
    by_record :
        (o : Option NodeExecutionRecord)
        → lookup node.id history ≡ o
        → IsHistory 1 (record_node_execution node resp history)
    by_record none p =
        let new = add_attempt resp (create_execution_record node (suc (length history))) in
        let e : record_node_execution node resp history ≡ insert node.id new history =
          rw (p, record_node_execution) refl in
        subst (IsHistory 1) (sym e)
          (IsHistory-insert_new 1 node.id new history h p (omega arith, refl, (refl, tt)))
    by_record (some rec) p =
        let new = add_attempt resp rec in
        let e : record_node_execution node resp history ≡ insert node.id new history =
          rw (p, record_node_execution) refl in
        subst (IsHistory 1) (sym e) (
          IsHistory-insert_old 1 node.id rec new history h p (refl, refl)
            (add_attempt-IsNumbered resp rec))

updated-history :
    (resp : NodeResponse) (ctx : EngineContext)
    → (update_context_with_node_response resp ctx).execution_history ≡ ctx.execution_history
unfolding update_context_with_node_response update_runtime
updated-history resp ctx = ground arith

go_to-history :
    (ctx : EngineContext) (r : Result Unit (Option Node))
    → (go_to ctx r).0.execution_history ≡ ctx.execution_history
go_to-history ctx (ok next) = refl
go_to-history ctx (err e) = refl

process-history :
    (graph : Graph) (node : Node) (resp : NodeResponse) (ctx : EngineContext) (s : NodeStatus)
    → (process_status graph node resp ctx s).0.execution_history ≡ ctx.execution_history
unfolding process_status
process-history graph node resp ctx no_status = refl
process-history graph node resp ctx complete =
    go_to-history ctx (resolve_to_next_node graph node resp.next_node_id)
process-history graph node resp ctx incomplete = refl
process-history graph node resp ctx failure = refl

conclude-history :
    (graph : Graph) (node : Node) (resp : Option NodeResponse) (ctx : EngineContext)
    → (conclude graph node resp ctx).0.execution_history
      ≡ record_node_execution node resp ctx.execution_history
unfolding conclude process_node_response
conclude-history graph node none ctx = refl
conclude-history graph node (some r) ctx =
    process-history graph node r (update_context_with_node_response r (recorded node (some r) ctx))
      r.status
    ∙ updated-history r (recorded node (some r) ctx)

engine_turn-IsHistory :
    (registry : Registry) (graph : Graph) (turn : ℕ) (node : Node) (ctx : EngineContext)
    → IsHistory 1 ctx.execution_history
    → IsHistory 1 (engine_turn registry graph turn node ctx).0.execution_history
engine_turn-IsHistory registry graph turn node ctx h = elim (turn_of registry graph turn node ctx) [
  | skipped e ↦
      subst (λ r. IsHistory 1 r.0.execution_history) (sym e)
        (subst (IsHistory 1) (sym (go_to-history ctx (resolve_to_next_node graph node ""))) h)
  | unready e ↦ subst (λ r. IsHistory 1 r.0.execution_history) (sym e) h
  | done ready p e ↦
      (let resp = (execute_node ready turn (node_context ctx node)).0 in
        subst (λ r. IsHistory 1 r.0.execution_history) (sym e)
          (subst (IsHistory 1)
            (sym (conclude-history graph ready resp (after_node ready turn node ctx)))
            (record_node_execution-IsHistory ready resp ctx.execution_history h)))
]

-- Whatever a request does, it keeps the history in order: the records bear the steps 1, 2, 3, … in the
-- order of the first executions, each under the id of its node, and the attempts of each the numbers
-- 1, 2, 3, ….
pub execute-IsHistory :
    (registry : Registry) (fuel : ℕ) (ctx : EngineContext)
    → IsHistory 1 ctx.execution_history
    → IsHistory 1 (execute registry fuel ctx).0.execution_history
execute-IsHistory registry fuel ctx h =
    execute-preserves registry (λ c. IsHistory 1 c.execution_history) (λ graph node. Unit {0}) fuel
      ctx (λ graph node next q n. tt) (λ graph node e. (tt, h))
      (λ graph turn node c q k. engine_turn-IsHistory registry graph turn node c k) h
