-- ===== src/Aggregates/Execution.antt =====
-- backend/src/domain/action-execution/action-execution-aggregate.ts
use fluxip.Base.{ℕ, String, Option, none, some}
use fluxip.Event.{Payload, of_execution, StoredEvent}
use fluxip.Event.Action.{IpValues}
use fluxip.Event.Execution.{TriggeredBy, started, execution_succeeded, execution_failed}

pub data ExecutionStatus : Type 0 where
  is_running is_succeeded is_failed : ExecutionStatus

pub record ActionExecutionState : Type 0 where
  pub execution_id : Option String
  pub account_id : Option String
  pub action_id : Option String
  pub ip_client_id : Option String
  pub triggered_by : Option TriggeredBy
  pub causation_event_id : Option String
  pub ip_values_used : IpValues
  pub attempt : ℕ
  pub status : ExecutionStatus
  pub error : Option String
  pub started_at : Option String
  pub completed_at : Option String
  pub failed_at : Option String

abbrev pub initial_action_execution_state : ActionExecutionState
initial_action_execution_state = record {
  execution_id = none;
  account_id = none;
  action_id = none;
  ip_client_id = none;
  triggered_by = none;
  causation_event_id = none;
  ip_values_used = record { v4 = none; v6 = none };
  attempt = 0;
  status = is_running;
  error = none;
  started_at = none;
  completed_at = none;
  failed_at = none;
}

-- `retry_scheduled` and `notification_sent` fall to the default branch.
unfoldable pub fold_execution : ActionExecutionState → Payload → ActionExecutionState
fold_execution state (of_execution (started d)) = record state {
  execution_id = some d.execution_id;
  account_id = some d.account_id;
  action_id = some d.action_id;
  ip_client_id = some d.ip_client_id;
  triggered_by = some d.triggered_by;
  causation_event_id = some d.causation_event_id;
  ip_values_used = d.ip_values_used;
  attempt = d.attempt;
  status = is_running;
  started_at = some d.started_at;
}
fold_execution state (of_execution (execution_succeeded d)) = record state {
  status = is_succeeded;
  error = none;
  completed_at = some d.completed_at;
}
fold_execution state (of_execution (execution_failed d)) = record state {
  status = is_failed;
  attempt = d.attempt;
  error = some d.error;
  failed_at = some d.failed_at;
}
fold_execution state _ = state

unfoldable pub action_execution_reducer : ActionExecutionState → StoredEvent → ActionExecutionState
unfolding fold_execution
action_execution_reducer state event = fold_execution state event.payload
