-- ===== src/Tests/Executions.antt =====
-- A job for an action that is enabled, with an executor that answers and one that fails.
use fluxip.Executions.Resolve.{message_of}
use fluxip.Base.{decimal, ◌≡◌, ◌⊎◌, ◌<◌, refl, String, true, false, some, none, [], ◌∷◌, any}
use fluxip.Event.{
  concurrency_error, Payload, of_action, of_execution, AppendEventInput, ok, err, failure, Result,
  Stamp, append_input, build_domain_event,
}
use fluxip.Event.Action.{attached, action_aggregate_type, dns, ipv4, inbound, tcp, IpValues}
use fluxip.Event.Execution.{ip_change, succeeded, started, execution_succeeded}
use fluxip.EventStore.{Table, append, load_aggregate, read_stream}
use fluxip.Devices.Delivery.{action_state}
use fluxip.Aggregates.Action.{action_reducer}
use fluxip.Executions.{WorkerPort, ActionExecutionJob, World, ResolvedConfig}
use fluxip.Executions.Notify.{maybe_send_notification, Notified, maybe_send_notification-Notified}
use fluxip.Executions.Worker.{run_attempt}
use fluxip.Executions.Attempt.{is_ok, is_open_failure, run_attempt-open}
use fluxip.Executions.Settled.{IsDecided, NotRunnable, run_attempt_decides}
use fluxip.Executions.Store.{Stored, over_store}
use fluxip.Tests.Samples.{config, stamp}
use fluxip.Tests.Tables.{row}

abbrev attached_row : AppendEventInput
attached_row = row "x1" action_aggregate_type "X" 1 (
    of_action (
      attached (record {
        action_id = "X";
        account_id = "A";
        ip_client_id = "D";
        action_type = "custom";
        address_families = ipv4 ∷ [];
        config =
            dns
              (record { provider_credential_id = "C"; zone = "example.org"; record_name = "home" });
        attached_at = "t";
      })))

abbrev one : Table
one = (append attached_row []).1

abbrev job : ActionExecutionJob
job = record {
  account_id = "A";
  execution_id = "E";
  action_id = "X";
  ip_client_id = "D";
  causation_event_id = "c";
  triggered_by = ip_change;
  ip_values = record { v4 = some "192.0.2.1"; v6 = none };
  attempts_made = 0;
  attempts = some 3;
}

abbrev stamps : Payload → Stamp
stamps (of_execution (started _)) = stamp "e1"
stamps (of_execution (execution_succeeded _)) = stamp "e2"
stamps (of_execution _) = stamp "e3"
stamps _ = stamp "e4"

abbrev port : (ResolvedConfig → IpValues → Stored → Result String × Stored) → WorkerPort Stored
port execute =
    over_store config job stamps
      (λ _. record { provider_credential_id = ""; zone = ""; record_name = "" })
      (λ _. record {
        provider_credential_id = "";
        firewall_id = 0;
        direction = inbound;
        protocol = tcp;
        port = none;
        description = "";
      })
      (λ secret. ok secret) (λ _. some execute) (λ _. none)

abbrev answers : ResolvedConfig → IpValues → Stored → Result String × Stored
answers _ _ s = (ok "done", s)

abbrev fails : ResolvedConfig → IpValues → Stored → Result String × Stored
fails _ _ s = (err (failure "no"), s)

abbrev start : World Stored
start = record {
  store = record { table = one; hashes = λ _. [] };
  recorded = [];
  executed = [];
  sent = [];
}

opens : any is_open_failure (run_attempt (port fails) job "t" "fluxip.test" start).1.recorded ≡ true
unfolding run_attempt over_store append append_input build_domain_event action_state load_aggregate
    read_stream action_reducer
opens = refl

run_attempt-open_example :
    (is_ok (run_attempt (port fails) job "t" "fluxip.test" start).0 ≡ false) × (1 < 3)
run_attempt-open_example = run_attempt-open (port fails) job "t" "fluxip.test" start refl opens

succeeds : is_ok (run_attempt (port answers) job "t" "fluxip.test" start).0 ≡ true
unfolding run_attempt over_store append append_input build_domain_event action_state load_aggregate
    read_stream action_reducer
succeeds = refl

run_attempt_decides_example :
    IsDecided
      (port answers)
      job
      "t"
      "fluxip.test"
      (run_attempt (port answers) job "t" "fluxip.test" start)
    ⊎ NotRunnable (port answers) job "t" "fluxip.test" start
run_attempt_decides_example =
    run_attempt_decides (port answers) job "t" "fluxip.test" start succeeds

maybe_send_notification-Notified_example :
    Notified
      (port answers)
      job
      "t"
      start
      succeeded
      (maybe_send_notification (port answers) job "t" succeeded start)
maybe_send_notification-Notified_example =
    maybe_send_notification-Notified (port answers) job "t" succeeded start

-- What `failed` tells of a conflict.
conflict_told :
    message_of (concurrency_error "action_execution" "E" 12)
    ≡ "Concurrency conflict appending to action_execution/E at sequence 12"
unfolding decimal
conflict_told = refl
