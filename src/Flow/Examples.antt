-- ===== src/Flow/Examples.antt =====
-- A concrete flow: tests, and the theorems of flows at concrete inputs.
use thunder_fork.Prelude.{
  ℕ, ◌<◌, String, ◌≡◌, ◌≢◌, ◌⊎◌, inl, inr, true, false, none, some, [], ◌∷◌, ◌==◌, contains,
  is_empty, if◌then◌else◌, refl, sym, ap, subst, arith, eq_iff, Bool-cases,
}
use thunder_fork.Prelude.Assoc.{lookup}
use thunder_fork.Flow.{
  authentication, Node, task_execution, prompt_only, decision, exec_complete, Executor,
  utility_executor, InputData, NodeContext, no_user,
}
use thunder_fork.Flow.Graph.{Graph, get_start_node}
use thunder_fork.Flow.Context.{EngineContext}
use thunder_fork.Flow.Engine.{
  Registry, engine_turn, out_of_fuel, execute, set_current_execution_node,
}
use thunder_fork.Flow.Engine.Run.{IsRanked, IsResumable, execute-ends, execute-IsResumable}
use thunder_fork.Flow.Engine.History.{IsHistory, execute-IsHistory}
use thunder_fork.Flow.Engine.User.{IsPlain, HoldsPlain, OffersPlain, execute-user}

abbrev pub name_input : InputData
name_input = record { name = "username"; input_type = "string"; required = true; options = [] }

-- An executor that is done at once, and names a user.
abbrev pub done_executor : Executor
done_executor = record {
  name = "Done";
  executor_type = utility_executor;
  execute = λ turn ctx. (
    some (record {
      status = exec_complete;
      required_data = [];
      additional_data = [];
      redirect_url = "";
      runtime_data = [];
      authenticated_user = record no_user { user_id = "u" };
      assertion = "assertion";
      failure_reason = "";
    }),
    ctx.runtime_data,
  );
}

abbrev pub registry : Registry
registry name = if name == "Done" then some done_executor else none

-- A prompt, and a task behind it.
abbrev pub prompt : Node
prompt = record {
  id = "ask";
  node_type = prompt_only;
  properties = [];
  is_start_node = true;
  is_final_node = false;
  next_node_list = "task" ∷ [];
  previous_node_list = [];
  input_data = name_input ∷ [];
  condition = none;
  executor_name = "";
  executor = none;
}

abbrev pub task : Node
task = record {
  id = "task";
  node_type = task_execution;
  properties = [];
  is_start_node = false;
  is_final_node = true;
  next_node_list = [];
  previous_node_list = "ask" ∷ [];
  input_data = [];
  condition = none;
  executor_name = "Done";
  executor = none;
}

abbrev pub graph : Graph
graph = record {
  id = "g";
  graph_type = authentication;
  nodes = ("ask", prompt) ∷ ("task", task) ∷ [];
  edges = ("ask", "task" ∷ []) ∷ [];
  start_node_id = "ask";
}

abbrev ctx : EngineContext
ctx = record {
  flow_id = "f";
  flow_type = authentication;
  app_id = "a";
  user_input_data = ("username", "x") ∷ [];
  runtime_data = [];
  current_node = none;
  current_node_response = none;
  current_action_id = "";
  graph = some graph;
  authenticated_user = no_user;
  execution_history = [];
}

-- The number of nodes that are still to come.
abbrev rank : Node → ℕ
rank node = if is_empty node.next_node_list then 0 else 1

held-cases :
    (id : String) (node : Node)
    → lookup id graph.nodes ≡ some node
    → (node.executor ≡ none)
      × (((id ≡ "ask") × (node.next_node_list ≡ "task" ∷ [])) ⊎ (node.next_node_list ≡ []))
unfolding lookup
held-cases id node h = (
  ground (arith, h, eq_iff "ask" id, eq_iff "task" id),
  ground (arith, h, eq_iff "ask" id, eq_iff "task" id),
)

rank-next :
    (node next : Node)
    → node.next_node_list ≡ "task" ∷ []
    → next.next_node_list ≡ []
    → rank next < rank node
rank-next node next e e' =
    let lower : rank next ≡ 0 = ap (λ l. if is_empty l then 0 else 1) e' in
    let upper : rank node ≡ 1 = ap (λ l. if is_empty l then 0 else 1) e in omega arith

graph-IsRanked : IsRanked graph rank
unfolding lookup contains
graph-IsRanked node next (id, held) follows = elim (held-cases id node held).1 [
  | inr e ↦ absurd (cc (subst (λ l. contains follows.next_id l ≡ true) e follows.listed))
  | inl (p, e) ↦
      (let task_next : ("task" == follows.next_id) ≡ true =
          ground (arith, subst (λ l. contains follows.next_id l ≡ true) e follows.listed) in
        let same : "task" ≡ follows.next_id = (eq_iff "task" follows.next_id).0 task_next in
        let is_task : task ≡ next =
          cc (subst (λ i. lookup i graph.nodes ≡ some next) (sym same) follows.held) in
        rank-next node next e (ap (λ n. n.next_node_list) (sym is_task)))
]

execute-ends_example : (execute registry 2 ctx).1 ≢ out_of_fuel
unfolding set_current_execution_node get_start_node lookup
execute-ends_example =
    execute-ends registry graph rank 2 prompt ctx graph-IsRanked ("ask", refl) refl (omega arith)

execute-IsResumable_example : IsResumable (execute registry 2 ctx)
execute-IsResumable_example = execute-IsResumable registry 2 ctx

execute-IsHistory_example : IsHistory 1 (execute registry 2 ctx).0.execution_history
execute-IsHistory_example = execute-IsHistory registry 2 ctx tt

registry-plain : OffersPlain registry
registry-plain name executor h = elim (Bool-cases (name == "Done")) [
  | inl p ↦
      (let same : done_executor ≡ executor = cc (simp p at h) in
        subst IsPlain same (record { no_authentication = refl; no_provisioning = refl }))
  | inr p ↦ absurd (cc (simp p at h))
]

graph_of : {g : Graph} → ctx.graph ≡ some g → graph ≡ g
graph_of e = cc e

graph-plain :
    (g : Graph) (id : String) (node : Node)
    → ctx.graph ≡ some g
    → lookup id g.nodes ≡ some node
    → HoldsPlain node
unfolding lookup
graph-plain g id node e h executor p = absurd (
    cc
      (p, (held-cases id node (subst (λ x. lookup id x.nodes ≡ some node) (sym (graph_of e)) h)).0))

execute-user_example : (execute registry 2 ctx).0.authenticated_user ≡ no_user
execute-user_example =
    execute-user registry 2 ctx registry-plain graph-plain (λ node e. absurd (cc e))

abbrev choice : Node
choice = record prompt { node_type = decision; next_node_list = "task" ∷ "other" ∷ [] }

abbrev choosing : NodeContext
choosing = record {
  flow_id = "f";
  flow_type = authentication;
  app_id = "a";
  current_action_id = "other";
  node_properties = [];
  node_input_data = [];
  user_input_data = [];
  runtime_data = [];
  authenticated_user = no_user;
  execution_history = [];
}

-- The context that waits at the prompt.
abbrev waiting : EngineContext
waiting = record ctx { current_node = some prompt }

-- An executor that writes to the runtime data and fails.
abbrev writing_task : Node
writing_task = record task {
  executor = some (record {
    name = "Writes";
    executor_type = utility_executor;
    execute = λ turn c. (none, ("mobileNumber", "1") ∷ c.runtime_data);
  });
}

write_kept :
    (engine_turn registry graph 0 writing_task ctx).0.runtime_data ≡ ("mobileNumber", "1") ∷ []
unfolding engine_turn thunder_fork.Flow.Nodes.should_execute thunder_fork.Flow.Nodes.execute_node
    thunder_fork.Flow.Engine.node_context
write_kept = refl
