-- ===== src/Flow/Store.antt =====
-- The store of flows, backend/internal/flow/flowexec/store.go and queries.go, over the rows of its two
-- tables, which are joined by the id of the flow.
--
-- Each call runs as one transaction: with a fault of the database nothing is written. The flag is that
-- fault. The id of a flow is the primary key, so that a second insertion fails.
use thunder_fork.Prelude.{String, Bool, true, false, Option, none, some, ◌||◌, if◌then◌else◌}
use thunder_fork.Prelude.Assoc.{Assoc, lookup, insert, without, has}
use thunder_fork.Prelude.Result.{Result, ok, err}
use thunder_fork.Flow.Context.{EngineContext}
use thunder_fork.Flow.Stored.{FlowContextRow, from_engine_context}

abbrev pub FlowRows : Type 0
FlowRows = Assoc FlowContextRow

-- The rows after a call, and whether it succeeded.
unfoldable pub store_flow_context : Bool → EngineContext → FlowRows → FlowRows × Bool
unfolding from_engine_context
store_flow_context fault ctx rows =
    if fault || has ctx.flow_id rows
    then (rows, false)
    else (insert ctx.flow_id (from_engine_context ctx) rows, true)

unfoldable pub get_flow_context :
    Bool → String → FlowRows → Result (Unit {0}) (Option FlowContextRow)
get_flow_context fault flow_id rows = if fault then err tt else ok (lookup flow_id rows)

-- The columns that the two updates set.
unfoldable pub update_row : FlowContextRow → FlowContextRow → FlowContextRow
update_row new old = record old {
  current_node_id = new.current_node_id;
  current_action_id = new.current_action_id;
  runtime_data = new.runtime_data;
  execution_history = new.execution_history;
  is_authenticated = new.is_authenticated;
  user_id = new.user_id;
  organization_unit_id = new.organization_unit_id;
  user_type = new.user_type;
  user_inputs = new.user_inputs;
  user_attributes = new.user_attributes;
}

-- No row is no fault: the updates then change nothing.
unfoldable pub update_flow_context : Bool → EngineContext → FlowRows → FlowRows × Bool
unfolding update_row from_engine_context
update_flow_context fault ctx rows =
    if fault then (rows, false) else elim (lookup ctx.flow_id rows) [
      | none ↦ (rows, true)
      | some old ↦ (insert ctx.flow_id (update_row (from_engine_context ctx) old) rows, true)
    ]

unfoldable pub delete_flow_context : Bool → String → FlowRows → FlowRows × Bool
delete_flow_context fault flow_id rows =
    if fault then (rows, false) else (without flow_id rows, true)
