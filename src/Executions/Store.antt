-- ===== src/Executions/Store.antt =====
-- What the worker calls over the event store and Redis: the first functions of
-- backend/src/adapters/queue-bullmq/action-execution-worker.ts, and
-- backend/src/projections/executions-projection.ts. The hash of an action's executions is a map from
-- their ids; the JSON text of a summary stands for it.
use fluxip.Base.{
  ℕ, ◌+◌, String, Bool, true, false, not, ◌||◌, Option, none, some, List, [], ◌∷◌, Map, put, truthy,
  opt_eq, if◌then◌else◌,
}
use fluxip.Event.{
  Payload, of_execution, of_action, StoredEvent, ReadStreamParams, Result, ok, err,
  CloudEventsConfig, Stamp, build_domain_event, append_input,
}
use fluxip.Event.Action.{
  IpValues, action_aggregate_type, ActionEvent, ActionConfig, UpdateDnsRecordConfig,
  UpdateFirewallRuleConfig,
}
use fluxip.Event.Execution.{ActionExecutionEvent, TriggeredBy, action_execution_aggregate_type}
use fluxip.Event.Settings.{notification_channel_aggregate_type, provider_credential_aggregate_type}
use fluxip.EventStore.{Table, Loaded, append, load_aggregate, list_aggregate_ids}
use fluxip.EventStore.Commands.{append_next}
use fluxip.Aggregates.Action.{initial_action_state, action_reducer}
use fluxip.Aggregates.Execution.{
  ActionExecutionState, ExecutionStatus, initial_action_execution_state, action_execution_reducer,
}
use fluxip.Aggregates.Settings.{
  NotificationChannelState, initial_notification_channel_state, notification_channel_reducer,
  ProviderCredentialState, initial_provider_credential_state, provider_credential_reducer,
}
use fluxip.Devices.Delivery.{action_state}
use fluxip.Devices.Settle.{load_client}
use fluxip.Executions.{Done, WorkerPort, ActionExecutionJob, ResolvedConfig, NotificationMessage}

pub record ExecutionSummary : Type 0 where
  pub execution_id : String
  pub action_id : String
  pub ip_client_id : String
  pub triggered_by : Option TriggeredBy
  pub ip_values_used : IpValues
  pub status : ExecutionStatus
  pub attempt : ℕ
  pub error : Option String
  pub started_at : Option String
  pub completed_at : Option String
  pub failed_at : Option String

summary_of :
    ActionExecutionState → Option String → Option String → Option String → Option ExecutionSummary
summary_of state (some execution_id) (some action_id) (some ip_client_id) =
    if not (truthy (some execution_id))
      || not (truthy (some action_id))
      || not (truthy (some ip_client_id))
    then none
    else some (record {
      execution_id = execution_id;
      action_id = action_id;
      ip_client_id = ip_client_id;
      triggered_by = state.triggered_by;
      ip_values_used = state.ip_values_used;
      status = state.status;
      attempt = state.attempt;
      error = state.error;
      started_at = state.started_at;
      completed_at = state.completed_at;
      failed_at = state.failed_at;
    })
summary_of state _ _ _ = none

unfoldable pub execution_summary : ActionExecutionState → Option ExecutionSummary
unfolding summary_of
execution_summary state = summary_of state state.execution_id state.action_id state.ip_client_id

put_summary : Option ExecutionSummary → Map ExecutionSummary → Map ExecutionSummary
put_summary none hash = hash
put_summary (some summary) hash = put summary.execution_id summary hash

-- `hset` under the key of the summary's action.
unfoldable pub upsert_execution_projection :
    ActionExecutionState → (String → Map ExecutionSummary) → String → Map ExecutionSummary
unfolding execution_summary put_summary
upsert_execution_projection state hashes action_id =
    if opt_eq state.action_id (some action_id)
    then put_summary (execution_summary state) (hashes action_id)
    else hashes action_id

abbrev pub execution_stream : String → String → ReadStreamParams
execution_stream account_id execution_id = record {
  account_id = account_id;
  aggregate_type = action_execution_aggregate_type;
  aggregate_id = execution_id;
}

unfoldable pub load_execution : String → String → Table → Loaded ActionExecutionState
load_execution account_id execution_id table =
    load_aggregate table (execution_stream account_id execution_id) initial_action_execution_state
      action_execution_reducer

rebuild_execution : String → ActionExecutionState → Map ExecutionSummary → Map ExecutionSummary
unfolding put_summary execution_summary
rebuild_execution action_id state hash =
    if not (opt_eq state.action_id (some action_id))
    then hash
    else put_summary (execution_summary state) hash

rebuild_executions :
    String → String → Table → List String → Map ExecutionSummary → Map ExecutionSummary
unfolding rebuild_execution load_execution
rebuild_executions account_id action_id table [] hash = hash
rebuild_executions account_id action_id table (id ∷ ids) hash =
    rebuild_executions account_id action_id table ids
      (rebuild_execution action_id (load_execution account_id id table).state hash)

unfoldable pub rebuild_executions_projection : String → String → Table → Map ExecutionSummary
unfolding rebuild_executions
rebuild_executions_projection account_id action_id table =
    rebuild_executions account_id action_id table
      (list_aggregate_ids
        (record { account_id = account_id; aggregate_type = action_execution_aggregate_type })
        table)
      []

some_entry : Map ExecutionSummary → Bool
some_entry [] = false
some_entry (_ ∷ _) = true

unfoldable pub list_executions_projection :
    String → String → Table → Map ExecutionSummary → Map ExecutionSummary
unfolding rebuild_executions_projection some_entry
list_executions_projection account_id action_id table hash =
    if some_entry hash then hash else rebuild_executions_projection account_id action_id table

unfoldable pub next_sequence : String → String → Table → ℕ
unfolding load_execution
next_sequence account_id execution_id table =
    (load_execution account_id execution_id table).version + 1

-- The state behind the interface of the worker.
pub record Stored : Type 0 where
  pub table : Table
  pub hashes : String → Map ExecutionSummary

unfoldable pub done : Stored → Result StoredEvent × Table → Done × Stored
done s (ok _, table) = (ok tt, record s { table = table })
done s (err f, table) = (err f, record s { table = table })

module _ (config : CloudEventsConfig) (job : ActionExecutionJob) (stamps : Payload → Stamp) where
  unfoldable pub append_execution_event : ActionExecutionEvent → Stored → Done × Stored
  unfolding done next_sequence
  append_execution_event event s =
      let built =
        build_domain_event config action_execution_aggregate_type (of_execution event)
          (stamps (of_execution event)) in
      done s (
        append
          (append_input (execution_stream job.account_id job.execution_id)
            (next_sequence job.account_id job.execution_id s.table) built)
          s.table)

  unfoldable pub refresh_execution_projection : Stored → Done × Stored
  unfolding load_execution
  refresh_execution_projection s = (
    ok tt,
    record s {
      hashes =
          upsert_execution_projection (load_execution job.account_id job.execution_id s.table).state
            s.hashes;
    },
  )

  job_action_stream : ReadStreamParams
  job_action_stream = record {
    account_id = job.account_id;
    aggregate_type = action_aggregate_type;
    aggregate_id = job.action_id;
  }

  append_action_event : ActionEvent → Stored → Done × Stored
  unfolding done job_action_stream
  append_action_event event s = done s (
      append_next config job_action_stream
        (load_aggregate s.table job_action_stream initial_action_state action_reducer).version
        (of_action event) (stamps (of_action event)) s.table)

  unfoldable pub load_channel : Table → NotificationChannelState
  load_channel table =
      (load_aggregate table
        (record {
          account_id = job.account_id;
          aggregate_type = notification_channel_aggregate_type;
          aggregate_id = job.account_id;
        })
        initial_notification_channel_state notification_channel_reducer).state

  unfoldable pub load_credential : String → Table → ProviderCredentialState
  load_credential credential_id table =
      (load_aggregate table
        (record {
          account_id = job.account_id;
          aggregate_type = provider_credential_aggregate_type;
          aggregate_id = credential_id;
        })
        initial_provider_credential_state provider_credential_reducer).state

  -- The interface of the worker over the event store: what is not the store's is given.
  unfoldable pub over_store :
      (ActionConfig → UpdateDnsRecordConfig)
      → (ActionConfig → UpdateFirewallRuleConfig)
      → (String → Result String)
      → (String → Option (ResolvedConfig → IpValues → Stored → Result String × Stored))
      → (String → Option (NotificationMessage → Stored → Done × Stored))
      → WorkerPort Stored
  unfolding append_execution_event append_action_event refresh_execution_projection load_channel
      load_credential
  over_store other_dns other_firewall decrypt executors channels = record {
    load_action = λ s. ok (action_state s.table job.account_id job.action_id);
    load_client = λ s. ok (load_client job.account_id job.ip_client_id s.table).state;
    load_channel = λ s. ok (load_channel s.table);
    load_credential = λ id s. ok (load_credential id s.table);
    append_execution = append_execution_event;
    append_action = append_action_event;
    refresh = refresh_execution_projection;
    other_dns = other_dns;
    other_firewall = other_firewall;
    decrypt = decrypt;
    executors = executors;
    channels = channels;
  }
