-- ===== src/Flow/Nodes/Choice.antt =====
-- What decides whether a node is passed.
use thunder_fork.Prelude.{
  String, ◌≡◌, ◌⊎◌, ◌↔◌, true, false, some, List, [], ◌∷◌, ◌==◌, contains, is_empty, All, arith,
  refl, sym, subst, ◌∙◌, eq_iff, Bool-cases,
}
use thunder_fork.Prelude.Assoc.{has}
use thunder_fork.Flow.{Node, NodeContext, NodeResponse, no_response, InputData, complete}
use thunder_fork.Flow.Nodes.{
  missing_data, any_required, check_input_data, execute_prompt, find_next, trigger_action,
  prepare_action_input, execute_decision,
}

-- An input that is given, if it has to be.
abbrev pub IsGiven : NodeContext → InputData → Type 0
IsGiven ctx input = (input.required ≡ true) → has input.name ctx.user_input_data ≡ true

any_required-missing_data :
    (ctx : NodeContext) (inputs : List InputData)
    → (any_required (missing_data ctx inputs) ≡ false) ↔ All (IsGiven ctx) inputs
unfolding any_required missing_data
any_required-missing_data ctx [] = ground arith
any_required-missing_data ctx (input ∷ inputs) =
    ground (arith, any_required-missing_data ctx inputs)

-- A prompt is passed exactly if it asks for nothing, or if the request has some input and every
-- required input is among them. (With no input at all it is not passed, even if all it asks for is
-- optional.)
pub prompt_passes_iff :
    (node : Node) (ctx : NodeContext)
    → ((execute_prompt node ctx).status ≡ complete) ↔ (
        (node.input_data ≡ [])
        ⊎ ((is_empty ctx.user_input_data ≡ false) × All (IsGiven ctx) node.input_data))
unfolding execute_prompt check_input_data
prompt_passes_iff node ctx = ground (arith, any_required-missing_data ctx node.input_data)

not_empty_of : (id : String) (ids : List String) → contains id ids ≡ true → is_empty ids ≡ false
unfolding contains
not_empty_of id [] h = cc h
not_empty_of id (x ∷ ids) h = refl

find_next-listed :
    (action_id : String) (ids : List String)
    → contains action_id ids ≡ true
    → find_next action_id ids ≡ action_id
unfolding contains find_next
find_next-listed action_id [] h = cc h
find_next-listed action_id (id ∷ ids) h =
    ground (arith, find_next-listed action_id ids, eq_iff id action_id)

find_next-absent :
    (action_id : String) (ids : List String)
    → contains action_id ids ≡ false
    → find_next action_id ids ≡ ""
unfolding contains find_next
find_next-absent action_id [] h = refl
find_next-absent action_id (id ∷ ids) h = ground (arith, find_next-absent action_id ids)

abbrev passed : String → NodeResponse
passed id = record no_response { status = complete; next_node_id = id }

passes_to :
    (node : Node) (ctx : NodeContext) (id : String)
    → (id == "") ≡ false
    → ctx.current_action_id ≡ id
    → contains id node.next_node_list ≡ true
    → execute_decision node ctx ≡ some (passed id)
unfolding execute_decision trigger_action
passes_to node ctx id ne a l =
    let listed : contains ctx.current_action_id node.next_node_list ≡ true =
      subst (λ x. contains x node.next_node_list ≡ true) (sym a) l in
    let not_empty : is_empty node.next_node_list ≡ false = not_empty_of id node.next_node_list l in
    let found : find_next ctx.current_action_id node.next_node_list ≡ id =
      find_next-listed ctx.current_action_id node.next_node_list listed ∙ a in
    let some_action : (ctx.current_action_id == "") ≡ false =
      subst (λ x. (x == "") ≡ false) (sym a) ne in
    simp (some_action, not_empty, found, ne)

-- A decision is passed exactly if the request names an action and the action is one of its next nodes,
-- and then the response names that node as the next one.
pub decision_passes_iff :
    (node : Node) (ctx : NodeContext) (id : String)
    → ((resp : NodeResponse) × (execute_decision node ctx ≡ some resp)
        × (resp.status ≡ complete)
        × (resp.next_node_id ≡ id))
      ↔ (((id == "") ≡ false)
          × (ctx.current_action_id ≡ id)
          × (contains id node.next_node_list ≡ true))
unfolding execute_decision trigger_action prepare_action_input
decision_passes_iff node ctx id = (
  λ (resp, e, s, n). ground (
    arith,
    e,
    s,
    n,
    Bool-cases (contains ctx.current_action_id node.next_node_list),
    eq_iff (find_next ctx.current_action_id node.next_node_list) "",
    eq_iff id "",
    eq_iff ctx.current_action_id "",
    find_next-listed ctx.current_action_id node.next_node_list,
    find_next-absent ctx.current_action_id node.next_node_list,
  ),
  λ (ne, a, l).
      let passes : execute_decision node ctx ≡ some (passed id) = passes_to node ctx id ne a l in
      (passed id, passes, refl, refl),
)
