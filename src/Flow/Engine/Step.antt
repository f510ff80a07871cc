-- ===== src/Flow/Engine/Step.antt =====
-- One turn of the engine: where it goes, and what it leaves in the context.
use thunder_fork.Prelude.{
  ℕ, String, ◌≡◌, ◌≢◌, ◌⊎◌, inl, Bool, true, false, Option, none, some, List, [], ◌∷◌, ◌==◌,
  contains, is_some, arith, refl, sym, ap, subst, eq_iff,
}
use thunder_fork.Prelude.Result.{Result, ok, err}
use thunder_fork.Prelude.Assoc.{lookup}
use thunder_fork.Flow.{
  Node, NodeType, task_execution, prompt_only, decision, NodeResponse, NodeContext, NodeStatus,
  no_status, failure, complete, incomplete, complete_flow, incomplete_flow,
}
use thunder_fork.Flow.Graph.{Graph, get_node}
use thunder_fork.Flow.Nodes.{
  should_execute, execute_node, execute_decision, trigger_action, prepare_action_input, find_next,
}
use thunder_fork.Flow.Context.{EngineContext, update_context_with_node_response, update_runtime}
use thunder_fork.Flow.Engine.{
  after_node, Registry, FlowStep, Verdict, move, answer, server_error, new_step, answer_or_error,
  process_status, set_node_executor, first_or_empty, next_node_id_of, resolve_to_next_node,
  process_node_response, recorded, conclude, engine_turn, go_to, node_context,
  handle_incomplete_response, resolve_step_for_redirection, resolve_step_details_for_prompt,
}

-- A node that follows another one in the graph.
pub record IsNext (graph : Graph) (node next : Node) : Type 0 where
  pub next_id : String
  pub listed : contains next_id node.next_node_list ≡ true
  pub held : lookup next_id graph.nodes ≡ some next

contains-find_next :
    (action_id : String) (ids : List String)
    → (find_next action_id ids == "") ≡ false
    → contains (find_next action_id ids) ids ≡ true
unfolding find_next contains
contains-find_next action_id [] h = cc
contains-find_next action_id (id ∷ ids) h =
    ground (arith, contains-find_next action_id ids, eq_iff id id)

-- What a response may name as the next node of a decision.
abbrev Names : Node → String → Type 0
Names node id = (id ≡ "") ⊎ (contains id node.next_node_list ≡ true)

decision-Names :
    (node : Node) (ctx : NodeContext) (resp : NodeResponse)
    → execute_decision node ctx ≡ some resp
    → Names node resp.next_node_id
unfolding execute_decision trigger_action prepare_action_input
decision-Names node ctx resp h = ground (
  arith,
  h,
  contains-find_next ctx.current_action_id node.next_node_list,
  eq_iff (find_next ctx.current_action_id node.next_node_list) "",
)

contains-first :
    (ids : List String)
    → (first_or_empty ids == "") ≡ false
    → contains (first_or_empty ids) ids ≡ true
unfolding contains
contains-first [] h = cc
contains-first (id ∷ ids) h = ground (arith, eq_iff id id)

listed_next :
    (node : Node) (chosen : String)
    → (node.node_type ≡ decision → Names node chosen)
    → (next_node_id_of node chosen == "") ≡ false
    → contains (next_node_id_of node chosen) node.next_node_list ≡ true
unfolding next_node_id_of
listed_next node chosen named h = by_type node.node_type refl
  where
    by_type :
        (t : NodeType)
        → node.node_type ≡ t
        → contains (next_node_id_of node chosen) node.next_node_list ≡ true
    by_type task_execution p = ground (arith, p, h, contains-first node.next_node_list)
    by_type prompt_only p = ground (arith, p, h, contains-first node.next_node_list)
    by_type decision p = ground (arith, p, h, named p, eq_iff chosen "")

resolved :
    (graph : Graph) (node next : Node) (chosen : String)
    → (node.node_type ≡ decision → Names node chosen)
    → resolve_to_next_node graph node chosen ≡ ok (some next)
    → IsNext graph node next
unfolding resolve_to_next_node get_node
resolved graph node next chosen named h = record {
  next_id = next_node_id_of node chosen;
  listed = ground (arith, h, listed_next node chosen named);
  held = ground (arith, h);
}

go_to-IsNext :
    (graph : Graph) (node next : Node) (chosen : String) (ctx : EngineContext)
    → (node.node_type ≡ decision → Names node chosen)
    → (go_to ctx (resolve_to_next_node graph node chosen)).1 ≡ move (some next)
    → IsNext graph node next
go_to-IsNext graph node next chosen ctx named h =
    resolved graph node next chosen named (ground (arith, h))

process-IsNext :
    (graph : Graph) (node next : Node) (resp : NodeResponse) (ctx : EngineContext)
    → (node.node_type ≡ decision → Names node resp.next_node_id)
    → (process_node_response graph node resp ctx).1 ≡ move (some next)
    → IsNext graph node next
unfolding process_node_response process_status
process-IsNext graph node next resp ctx named h =
    go_to-IsNext graph node next resp.next_node_id ctx named (ground (arith, h))

conclude-IsNext :
    (graph : Graph) (node next : Node) (resp : Option NodeResponse) (ctx : EngineContext)
    → ((r : NodeResponse) → resp ≡ some r → node.node_type ≡ decision → Names node r.next_node_id)
    → (conclude graph node resp ctx).1 ≡ move (some next)
    → IsNext graph node next
unfolding conclude
conclude-IsNext graph node next none ctx named h = cc
conclude-IsNext graph node next (some r) ctx named h =
    process-IsNext graph node next r _ (named r refl) h

set_node_executor-same :
    (registry : Registry) (node ready : Node)
    → set_node_executor registry node ≡ some ready
    → (ready.next_node_list ≡ node.next_node_list)
      × (ready.node_type ≡ node.node_type)
      × (ready.id ≡ node.id)
unfolding set_node_executor
set_node_executor-same registry node ready h = ground (arith, h)

executed-Names :
    (node : Node) (turn : ℕ) (ctx : NodeContext) (r : NodeResponse)
    → (execute_node node turn ctx).0 ≡ some r
    → node.node_type ≡ decision
    → Names node r.next_node_id
unfolding execute_node
executed-Names node turn ctx r h p = decision-Names node ctx r (ground (arith, p, h))

-- A verdict and the current node of the context agree.
abbrev pub IsSettled : EngineContext × Verdict → Type 0
IsSettled (ctx, move next) = ctx.current_node ≡ next
IsSettled (ctx, answer step) = (step.status ≢ complete_flow) × (is_some ctx.current_node ≡ true)
IsSettled (ctx, server_error) = Unit {0}

handle_incomplete_response-status :
    (resp : NodeResponse) (step found : FlowStep)
    → handle_incomplete_response resp step ≡ some found
    → found.status ≡ incomplete_flow
unfolding handle_incomplete_response resolve_step_for_redirection resolve_step_details_for_prompt
handle_incomplete_response-status resp step found h = ground (arith, h)

go_to-IsSettled : (ctx : EngineContext) (r : Result Unit (Option Node)) → IsSettled (go_to ctx r)
go_to-IsSettled ctx (ok next) = refl
go_to-IsSettled ctx (err e) = tt

answer-IsSettled :
    (ctx : EngineContext) (o : Option FlowStep)
    → ((step : FlowStep) → o ≡ some step → step.status ≡ incomplete_flow)
    → is_some ctx.current_node ≡ true
    → IsSettled (ctx, answer_or_error o)
answer-IsSettled ctx none known h = tt
answer-IsSettled ctx (some step) known h = (λ e. cc (known step refl, e), h)

updated-current_node :
    (resp : NodeResponse) (ctx : EngineContext)
    → is_some ctx.current_node ≡ true
    → is_some (update_context_with_node_response resp ctx).current_node ≡ true
unfolding update_context_with_node_response update_runtime
updated-current_node resp ctx h = ground (arith, h)

process-IsSettled :
    (graph : Graph) (node : Node) (resp : NodeResponse) (ctx : EngineContext)
    → is_some ctx.current_node ≡ true
    → IsSettled (process_node_response graph node resp ctx)
unfolding process_node_response process_status
process-IsSettled graph node resp ctx h = by_status resp.status
  where
    by_status : (s : NodeStatus) → IsSettled (process_status graph node resp ctx s)
    by_status no_status = tt
    by_status complete = go_to-IsSettled ctx (resolve_to_next_node graph node resp.next_node_id)
    by_status incomplete =
        answer-IsSettled ctx (handle_incomplete_response resp (new_step ctx.flow_id))
          (handle_incomplete_response-status resp (new_step ctx.flow_id)) h
    by_status failure = (λ e. cc e, h)

conclude-IsSettled :
    (graph : Graph) (node : Node) (resp : Option NodeResponse) (ctx : EngineContext)
    → IsSettled (conclude graph node resp ctx)
unfolding conclude
conclude-IsSettled graph node none ctx = tt
conclude-IsSettled graph node (some r) ctx =
    process-IsSettled graph node r _ (updated-current_node r (recorded node (some r) ctx) refl)

module _ (registry : Registry) (graph : Graph) (turn : ℕ) (node : Node) (ctx : EngineContext) where
  -- The result of a turn that executes the node with its executor.
  abbrev pub executed : Node → EngineContext × Verdict
  executed ready =
      conclude graph ready (execute_node ready turn (node_context ctx node)).0
        (after_node ready turn node ctx)

  -- A turn skips the node, fails, or executes it.
  pub data Turn : Type 0 where
    skipped :
        engine_turn registry graph turn node ctx ≡ go_to ctx (resolve_to_next_node graph node "")
        → Turn
    unready : engine_turn registry graph turn node ctx ≡ (ctx, server_error) → Turn
    done :
        (ready : Node)
        → set_node_executor registry node ≡ some ready
        → engine_turn registry graph turn node ctx ≡ executed ready
        → Turn

  pub turn_of : Turn
  turn_of =
      by_test (should_execute node (node_context ctx node)) (set_node_executor registry node) refl
        refl
    where
      by_test :
          (b : Bool) (o : Option Node)
          → should_execute node (node_context ctx node) ≡ b
          → set_node_executor registry node ≡ o
          → Turn
      by_test false o p q = skipped (unfold engine_turn in simp p)
      by_test true none p q = unready (unfold engine_turn in simp (p, q))
      by_test true (some ready) p q = done ready q (unfold engine_turn in simp (p, q))

  -- Wherever a turn of the engine moves on to, is a node of the graph, under an id that the list of
  -- the current node names.
  pub engine_turn-IsNext :
      (next : Node)
      → (engine_turn registry graph turn node ctx).1 ≡ move (some next)
      → IsNext graph node next
  engine_turn-IsNext next h = elim turn_of [
    | skipped e ↦ go_to-IsNext graph node next "" ctx (λ p. inl refl) (rw (sym e) h)
    | unready e ↦ absurd (cc (ap (λ r. r.1) e, h))
    | done ready p e ↦
        (let found : IsNext graph ready next =
            conclude-IsNext graph ready next (execute_node ready turn (node_context ctx node)).0
              (after_node ready turn node ctx) (executed-Names ready turn (node_context ctx node))
              (rw (sym e) h) in
          record {
            next_id = found.next_id;
            listed =
                subst (λ ids. contains found.next_id ids ≡ true)
                  (set_node_executor-same registry node ready p).0 found.listed;
            held = found.held;
          })
  ]

  -- After a turn, the current node is the one that it moves on to; where it answers, there is one.
  pub engine_turn-IsSettled :
      is_some ctx.current_node ≡ true → IsSettled (engine_turn registry graph turn node ctx)
  engine_turn-IsSettled h = elim turn_of [
    | skipped e ↦ subst IsSettled (sym e) (go_to-IsSettled ctx (resolve_to_next_node graph node ""))
    | unready e ↦ subst IsSettled (sym e) tt
    | done ready p e ↦ subst IsSettled (sym e) (
        conclude-IsSettled graph ready (execute_node ready turn (node_context ctx node)).0
          (after_node ready turn node ctx))
  ]
