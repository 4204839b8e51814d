-- ===== src/Executions/Worker.antt =====
-- One attempt of a job: the function that backend/src/adapters/queue-bullmq/action-execution-worker.ts
-- gives its worker. `deps` of the job are an argument of each step; the clock is one value.
use Prim.Native.String.{◌++◌}
use fluxip.Base.{
  get_or, String, true, not, ◌||◌, Option, none, some, ◌∷◌, truthy, any, if◌then◌else◌,
}
use fluxip.Event.{Result, ok, err, Failure, failure, concurrency_error}
use fluxip.Event.Action.{ipv4, ipv6, ActionConfig, IpValues, ActionEvent, firewall_rule_applied}
use fluxip.Event.Execution.{
  ActionExecutionEvent, started, execution_succeeded, execution_failed, succeeded, failed,
}
use fluxip.Aggregates.Action.{ActionState}
use fluxip.Devices.FanOut.{enabled_status}
use fluxip.Firewall.{added_entry}
use fluxip.Executions.{Done, WorkerPort, ActionExecutionJob, World, ResolvedConfig}
use fluxip.Executions.Notify.{append_event, refresh_projection, maybe_send_notification}
use fluxip.Executions.Resolve.{
  family_missing, relevant_values, is_firewall, attempt_of, is_final_attempt, message_of,
  resolve_config,
}

abbrev pub failed_event : ActionExecutionJob → String → Failure → ActionExecutionEvent
failed_event job now f = execution_failed (record {
  attempt = attempt_of job;
  error = message_of f;
  retries_exhausted = is_final_attempt job;
  failed_at = now;
})

abbrev pub missing_event : ActionExecutionJob → String → ActionExecutionEvent
missing_event job now = execution_failed (record {
  attempt = attempt_of job;
  error = "Required address family missing from the reported IP change";
  retries_exhausted = true;
  failed_at = now;
})

abbrev pub started_event : ActionExecutionJob → String → ActionExecutionEvent
started_event job now = started (record {
  execution_id = job.execution_id;
  account_id = job.account_id;
  action_id = job.action_id;
  ip_client_id = job.ip_client_id;
  triggered_by = job.triggered_by;
  causation_event_id = job.causation_event_id;
  ip_values_used = job.ip_values;
  attempt = attempt_of job;
  started_at = now;
})

module _ {S : Type 0} (port : WorkerPort S) (job : ActionExecutionJob)
    (now source_label : String) where
  firewall_applied : IpValues → ActionEvent
  firewall_applied values = firewall_rule_applied (record {
    action_id = job.action_id;
    applied = record { v4 = added_entry ipv4 values.v4; v6 = added_entry ipv6 values.v6 };
    applied_at = now;
  })

  -- The second round of the loop, which does not continue.
  second_attempt : Done × S → IpValues → S
  second_attempt (ok _, store) values = store
  second_attempt (err (concurrency_error _ _ _), store) values =
      (port.append_action (firewall_applied values) store).1
  second_attempt (err (failure _), store) values = store

  unfoldable pub append_firewall_rule_applied : IpValues → World S → World S
  unfolding second_attempt firewall_applied
  append_firewall_rule_applied values w = record w {
    store = second_attempt (port.append_action (firewall_applied values) w.store) values;
  }

  -- After the event of success: the event of the firewall's action, the projection, the notification.
  unfoldable pub notify_success : Done × World S → Done × World S
  notify_success (err f, w) = (err f, w)
  notify_success (ok _, w) = (ok tt, maybe_send_notification port job now succeeded w)

  unfoldable pub after_success : ActionState → IpValues → Done × World S → Done × World S
  unfolding notify_success append_firewall_rule_applied refresh_projection
  after_success state values (err f, w) = (err f, w)
  after_success state values (ok _, w) = notify_success (
      refresh_projection port job now
        (if is_firewall state.action_type then append_firewall_rule_applied values w else w))

  unfoldable pub after_execute :
      ActionState → IpValues → World S → Result String × S → Done × World S
  unfolding after_success append_event
  after_execute state values w (err f, store) =
      (err f, record w { store = store; executed = values ∷ w.executed })
  after_execute state values w (ok summary, store) = after_success state values (
      append_event port job now
        (execution_succeeded (record { completed_at = now; provider_response_summary = summary }))
        (record w { store = store; executed = values ∷ w.executed }))

  unfoldable pub with_config :
      ActionState
      → (ResolvedConfig → IpValues → S → Result String × S)
      → IpValues
      → Result ResolvedConfig
      → World S
      → Done × World S
  unfolding after_execute
  with_config state execute values (err f) w = (err f, w)
  with_config state execute values (ok config) w =
      after_execute state values w (execute config values w.store)

  -- The catch: what is left of it once the projection is refreshed, and its error.
  unfoldable pub after_refresh : Failure → Done × World S → Done × World S
  after_refresh f (err g, w) = (err g, w)
  after_refresh f (ok _, w) =
      (err f, if is_final_attempt job then maybe_send_notification port job now failed w else w)

  unfoldable pub after_failure : Failure → Done × World S → Done × World S
  unfolding after_refresh refresh_projection
  after_failure f (err g, w) = (err g, w)
  after_failure f (ok _, w) = after_refresh f (refresh_projection port job now w)

  unfoldable pub catch_failure : Done × World S → Done × World S
  unfolding after_failure append_event
  catch_failure (ok _, w) = (ok tt, w)
  catch_failure (err f, w) = after_failure f (append_event port job now (failed_event job now f) w)

  unfoldable pub with_executor :
      ActionState
      → ActionConfig
      → Option (ResolvedConfig → IpValues → S → Result String × S)
      → World S
      → Done × World S
  unfolding catch_failure with_config relevant_values resolve_config
  with_executor state config none w = (
    err (
        failure
          ("No ActionExecutor registered for type \"" ++ get_or state.action_type "" ++ "\"")),
    w,
  )
  with_executor state config (some execute) w = catch_failure (
      with_config state execute (relevant_values state.address_families job.ip_values)
        (resolve_config port job source_label state config w.store) w)

  unfoldable pub notify_missing : Done × World S → Done × World S
  notify_missing (err f, w) = (err f, w)
  notify_missing (ok _, w) = (ok tt, maybe_send_notification port job now failed w)

  unfoldable pub after_missing : Done × World S → Done × World S
  unfolding notify_missing refresh_projection
  after_missing (err f, w) = (err f, w)
  after_missing (ok _, w) = notify_missing (refresh_projection port job now w)

  unfoldable pub fail_missing : World S → Done × World S
  unfolding after_missing append_event
  fail_missing w = after_missing (append_event port job now (missing_event job now) w)

  unfoldable pub with_parts :
      ActionState → Option ActionConfig → Option String → World S → Done × World S
  unfolding fail_missing with_executor family_missing
  with_parts state (some config) (some action_type) w =
      let run = with_executor state config (port.executors action_type) w in
      let missing = fail_missing w in
      if not (truthy state.action_id)
        || not (enabled_status state.status)
        || not (truthy (some action_type))
      then (ok tt, w)
      else if any (family_missing job.ip_values) state.address_families
      then missing
      else run
  with_parts state _ _ w = (ok tt, w)

  unfoldable pub with_action : Result ActionState → World S → Done × World S
  unfolding with_parts
  with_action (err f) w = (err f, w)
  with_action (ok state) w = with_parts state state.config state.action_type w

  unfoldable pub after_started : Done × World S → Done × World S
  unfolding with_action
  after_started (err f, w) = (err f, w)
  after_started (ok _, w) = with_action (port.load_action w.store) w

  unfoldable pub run_attempt : World S → Done × World S
  unfolding after_started append_event
  run_attempt w = after_started (append_event port job now (started_event job now) w)
