-- ===== src/Event/Execution.antt =====
-- backend/src/domain/action-execution/events.ts
use fluxip.Base.{ℕ, String, Bool}
use fluxip.Event.Action.{IpValues}

abbrev pub action_execution_aggregate_type : String
action_execution_aggregate_type = "action_execution"

pub data TriggeredBy : Type 0 where
  ip_change manual : TriggeredBy

pub data Outcome : Type 0 where
  succeeded failed : Outcome

pub record ActionExecutionStartedData : Type 0 where
  pub execution_id : String
  pub account_id : String
  pub action_id : String
  pub ip_client_id : String
  pub triggered_by : TriggeredBy
  pub causation_event_id : String
  pub ip_values_used : IpValues
  pub attempt : ℕ
  pub started_at : String

pub record ActionExecutionSucceededData : Type 0 where
  pub completed_at : String
  pub provider_response_summary : String

pub record ActionExecutionFailedData : Type 0 where
  pub attempt : ℕ
  pub error : String
  pub retries_exhausted : Bool
  pub failed_at : String

pub record ActionExecutionRetryScheduledData : Type 0 where
  pub next_attempt : ℕ
  pub next_attempt_at : String

pub record ActionExecutionNotificationSentData : Type 0 where
  pub channel_id : String
  pub outcome_notified : Outcome
  pub sent_at : String

pub data ActionExecutionEvent : Type 0 where
  started : ActionExecutionStartedData → ActionExecutionEvent
  execution_succeeded : ActionExecutionSucceededData → ActionExecutionEvent
  execution_failed : ActionExecutionFailedData → ActionExecutionEvent
  retry_scheduled : ActionExecutionRetryScheduledData → ActionExecutionEvent
  notification_sent : ActionExecutionNotificationSentData → ActionExecutionEvent

abbrev pub action_execution_event_name : ActionExecutionEvent → String
action_execution_event_name (started _) = "started"
action_execution_event_name (execution_succeeded _) = "succeeded"
action_execution_event_name (execution_failed _) = "failed"
action_execution_event_name (retry_scheduled _) = "retry_scheduled"
action_execution_event_name (notification_sent _) = "notification_sent"
