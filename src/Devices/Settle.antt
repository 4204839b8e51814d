-- ===== src/Devices/Settle.antt =====
-- backend/src/adapters/queue-bullmq/debounce-worker.ts: what the worker does for one job. The
-- argument `others` is what other writers do to the table between the load and the insert; after
-- the insert the worker only reads the store. The calls of the projection, the scheduler and the
-- queue are its result.
pub mod Again
use fluxip.Base.{
  ◌+◌, ◌||◌, String, Bool, true, false, not, Option, none, some, List, [], ◌∷◌, or_else, opt_eq,
  if◌then◌else◌,
}
use fluxip.Event.{
  Payload, of_ip_client, StoredEvent, ReadStreamParams, Failure, Result, ok, err, CloudEventsConfig,
  Stamp, build_domain_event, append_input, AppendEventInput,
}
use fluxip.Event.Action.{IpValues}
use fluxip.Event.Execution.{ip_change}
use fluxip.Event.IpClient.{
  ip_client_aggregate_type, IpClientIpReportReceivedData, IpClientIpChangedData, ip_report_received,
  ip_changed,
}
use fluxip.EventStore.{Table, Loaded, append, load_aggregate}
use fluxip.Aggregates.IpClient.{
  IpClientState, IpClientStatus, on_duty, off_duty, retired, initial_ip_client_state,
  ip_client_reducer,
}
use fluxip.Devices.Delivery.{providers_of_device}
use fluxip.Devices.FanOut.{ExecutionJob, fan_out_action_executions}

abbrev pub ip_client_stream : String → String → ReadStreamParams
ip_client_stream account_id ip_client_id = record {
  account_id = account_id;
  aggregate_type = ip_client_aggregate_type;
  aggregate_id = ip_client_id;
}

unfoldable pub load_client : String → String → Table → Loaded IpClientState
load_client account_id ip_client_id table =
    load_aggregate table (ip_client_stream account_id ip_client_id) initial_ip_client_state
      ip_client_reducer

abbrev pub report_of : Payload → Option IpClientIpReportReceivedData
report_of (of_ip_client (ip_report_received d)) = some d
report_of _ = none

-- `[...events].reverse().find(…)`
unfoldable pub last_report : List StoredEvent → Option IpClientIpReportReceivedData
last_report [] = none
last_report (e ∷ es) = or_else (last_report es) (report_of e.payload)

abbrev pub is_on_duty : IpClientStatus → Bool
is_on_duty on_duty = true
is_on_duty _ = false

-- The data of `ip_changed`, or nothing where the report changes no address.
unfoldable pub changed_data :
    IpClientState → String → IpClientIpReportReceivedData → Option IpClientIpChangedData
changed_data state settled_at report =
    let resolved_ipv4 = or_else report.reported_ipv4 state.last_known_ipv4 in
    let resolved_ipv6 = or_else report.reported_ipv6 state.last_known_ipv6 in
    if not (opt_eq resolved_ipv4 state.last_known_ipv4)
      || not (opt_eq resolved_ipv6 state.last_known_ipv6)
    then some (record {
      previous_ipv4 = state.last_known_ipv4;
      new_ipv4 = resolved_ipv4;
      previous_ipv6 = state.last_known_ipv6;
      new_ipv6 = resolved_ipv6;
      settled_at = settled_at;
    })
    else none

unfoldable pub changed_by :
    IpClientState → String → Option IpClientIpReportReceivedData → Option IpClientIpChangedData
changed_by state settled_at none = none
changed_by state settled_at (some report) = changed_data state settled_at report

-- The early returns of the worker, and the change that it confirms where none is taken.
unfoldable pub confirmed : Loaded IpClientState → String → Option IpClientIpChangedData
unfolding changed_by
confirmed loaded settled_at =
    if not (is_on_duty loaded.state.status)
    then none
    else changed_by loaded.state settled_at (last_report loaded.events)

pub record SettleDeps : Type 0 where
  pub config : CloudEventsConfig
  pub account_id : String
  pub ip_client_id : String
  pub has_snapshots : Bool

-- What follows a confirmed change: the state for the projection, the providers whose snapshots are
-- scheduled with the event as their cause, and the jobs.
pub record Settled : Type 0 where
  pub event : StoredEvent
  pub projected : IpClientState
  pub scheduled : List String
  pub jobs : List ExecutionJob

unfoldable pub settled :
    SettleDeps → IpClientState → IpValues → StoredEvent → Table → (String → String) → Settled
settled deps state ip_values event table ulids = record {
  event = event;
  projected = ip_client_reducer state event;
  scheduled =
      if deps.has_snapshots
      then providers_of_device deps.account_id deps.ip_client_id table
      else [];
  jobs =
      fan_out_action_executions
        (record {
          account_id = deps.account_id;
          ip_client_id = deps.ip_client_id;
          causation_event_id = event.id;
          triggered_by = ip_change;
          ip_values = ip_values;
        })
        ulids table;
}

unfoldable pub settle_input :
    SettleDeps → Loaded IpClientState → Stamp → IpClientIpChangedData → AppendEventInput
settle_input deps loaded stamp d =
    append_input (ip_client_stream deps.account_id deps.ip_client_id) (loaded.version + 1)
      (build_domain_event deps.config ip_client_aggregate_type (of_ip_client (ip_changed d)) stamp)

unfoldable pub after_insert :
    SettleDeps
    → IpClientState
    → IpClientIpChangedData
    → (String → String)
    → Result StoredEvent × Table
    → Result (Option Settled) × Table
unfolding settled
after_insert deps state d ulids (err f, table) = (err f, table)
after_insert deps state d ulids (ok event, table) = (
  ok (some (settled deps state (record { v4 = d.new_ipv4; v6 = d.new_ipv6 }) event table ulids)),
  table,
)

unfoldable pub settle_confirmed :
    SettleDeps
    → Loaded IpClientState
    → Stamp
    → (String → String)
    → Table
    → Option IpClientIpChangedData
    → Result (Option Settled) × Table
unfolding after_insert settle_input
settle_confirmed deps loaded stamp ulids table none = (ok none, table)
settle_confirmed deps loaded stamp ulids table (some d) =
    after_insert deps loaded.state d ulids (append (settle_input deps loaded stamp d) table)

unfoldable pub settle :
    SettleDeps
    → Stamp
    → (String → String)
    → (Table → Table)
    → Table
    → Result (Option Settled) × Table
unfolding load_client confirmed settle_confirmed
settle deps stamp ulids others table =
    let loaded = load_client deps.account_id deps.ip_client_id table in
    settle_confirmed deps loaded stamp ulids (others table) (confirmed loaded stamp.now)
