-- ===== src/Executions/Settled.antt =====
-- How an attempt ends that throws nothing, and what its executor is called with.
use fluxip.Base.{
  ◌≡◌, refl, ◌∙◌, ◌⊎◌, inl, inr, String, Bool, true, false, not, ◌||◌, ◌&&◌, Option, none, some,
  ◌∷◌, any, is_some, truthy, if◌then◌else◌, arith,
}
use fluxip.Event.{Result, ok, err, Failure}
use fluxip.Event.Action.{IpValues, ActionConfig}
use fluxip.Event.Execution.{
  started, execution_succeeded, execution_failed, retry_scheduled, notification_sent, failed,
}
use fluxip.Aggregates.Action.{ActionState}
use fluxip.Devices.FanOut.{enabled_status}
use fluxip.Executions.{Done, WorkerPort, ActionExecutionJob, World, ResolvedConfig}
use fluxip.Executions.Notify.{append_event, refresh_projection}
use fluxip.Executions.Resolve.{family_missing, relevant_values, resolve_config}
use fluxip.Executions.Worker.{
  after_success, after_execute, with_config, after_refresh, after_failure, catch_failure,
  with_executor, notify_missing, after_missing, fail_missing, with_parts, with_action,
  after_started, run_attempt, missing_event, failed_event, started_event,
}
use fluxip.Executions.Attempt.{
  is_ok, is_success, is_final_failure, Silent, notify-any, after_success-any,
}

success-Silent : Silent is_success
success-Silent (notification_sent _) h = refl
success-Silent (started _) h = refl
success-Silent (execution_succeeded _) h = cc
success-Silent (execution_failed _) h = refl
success-Silent (retry_scheduled _) h = refl

final-Silent : Silent is_final_failure
final-Silent (notification_sent _) h = refl
final-Silent (started _) h = refl
final-Silent (execution_succeeded _) h = refl
final-Silent (execution_failed _) h = cc
final-Silent (retry_scheduled _) h = refl

-- The action may run: none of the tests returns early.
abbrev pub runnable : ActionState → Bool
runnable state =
    truthy state.action_id
    && enabled_status state.status
    && is_some state.config
    && truthy state.action_type

module _ {S : Type 0} (port : WorkerPort S) (job : ActionExecutionJob)
    (now source_label : String) where
  -- The attempt recorded a success, or a failure as the last one.
  abbrev pub IsDecided : Done × World S → Type 0
  IsDecided x = (any is_success x.1.recorded || any is_final_failure x.1.recorded) ≡ true

  after_success-decided :
      (state : ActionState) (values : IpValues) (x : Done × World S)
      → (is_ok x.0 ≡ true → any is_success x.1.recorded ≡ true)
      → is_ok (after_success port job now source_label state values x).0 ≡ true
      → any is_success (after_success port job now source_label state values x).1.recorded ≡ true
  unfolding after_success
  after_success-decided state values (err f, w) h o = cc
  after_success-decided state values (ok u, w) h o =
      after_success-any port job now source_label is_success success-Silent state values (ok u, w)
      ∙ h refl

  after_execute-decided :
      (state : ActionState) (values : IpValues) (w : World S) (x : Result String × S)
      → is_ok (after_execute port job now source_label state values w x).0 ≡ true
      → any is_success (after_execute port job now source_label state values w x).1.recorded ≡ true
  unfolding after_execute append_event
  after_execute-decided state values w (err f, store) o = cc
  after_execute-decided state values w (ok summary, store) o =
      after_success-decided state values
        (append_event port job now
          (execution_succeeded (record { completed_at = now; provider_response_summary = summary }))
          (record w { store = store; executed = values ∷ w.executed }))
        (λ _. refl) o

  with_config-decided :
      (state : ActionState) (execute : ResolvedConfig → IpValues → S → Result String × S)
      (values : IpValues) (r : Result ResolvedConfig) (w : World S)
      → is_ok (with_config port job now source_label state execute values r w).0 ≡ true
      → any is_success (with_config port job now source_label state execute values r w).1.recorded
        ≡ true
  unfolding with_config
  with_config-decided state execute values (err f) w o = cc
  with_config-decided state execute values (ok config) w o =
      after_execute-decided state values w (execute config values w.store) o

  after_refresh_err :
      (f : Failure) (x : Done × World S)
      → is_ok (after_refresh port job now source_label f x).0 ≡ false
  unfolding after_refresh
  after_refresh_err f (err g, w) = refl
  after_refresh_err f (ok _, w) = refl

  after_failure_err :
      (f : Failure) (x : Done × World S)
      → is_ok (after_failure port job now source_label f x).0 ≡ false
  unfolding after_failure
  after_failure_err f (err g, w) = refl
  after_failure_err f (ok _, w) = after_refresh_err f (refresh_projection port job now w)

  catch_failure-IsDecided :
      (x : Done × World S)
      → (is_ok x.0 ≡ true → any is_success x.1.recorded ≡ true)
      → is_ok (catch_failure port job now source_label x).0 ≡ true
      → IsDecided (catch_failure port job now source_label x)
  unfolding catch_failure
  catch_failure-IsDecided (ok _, w) h o = ground (arith, h refl)
  catch_failure-IsDecided (err f, w) h o =
      cc (after_failure_err f (append_event port job now (failed_event job now f) w))

  with_executor-IsDecided :
      (state : ActionState) (config : ActionConfig)
      (r : Option (ResolvedConfig → IpValues → S → Result String × S)) (w : World S)
      → is_ok (with_executor port job now source_label state config r w).0 ≡ true
      → IsDecided (with_executor port job now source_label state config r w)
  unfolding with_executor
  with_executor-IsDecided state config none w o = cc
  with_executor-IsDecided state config (some execute) w o =
      let values = relevant_values state.address_families job.ip_values in
      let resolved = resolve_config port job source_label state config w.store in
      catch_failure-IsDecided
        (with_config port job now source_label state execute values resolved w)
        (with_config-decided state execute values resolved w) o

  notify_missing-final :
      (x : Done × World S)
      → any is_final_failure (notify_missing port job now source_label x).1.recorded
        ≡ any is_final_failure x.1.recorded
  unfolding notify_missing
  notify_missing-final (err f, w) = refl
  notify_missing-final (ok _, w) =
      notify-any port job now source_label is_final_failure final-Silent failed w

  after_missing-final :
      (x : Done × World S)
      → any is_final_failure (after_missing port job now source_label x).1.recorded
        ≡ any is_final_failure x.1.recorded
  unfolding after_missing refresh_projection
  after_missing-final (err f, w) = refl
  after_missing-final (ok _, w) = notify_missing-final (refresh_projection port job now w)

  fail_missing-IsDecided : (w : World S) → IsDecided (fail_missing port job now source_label w)
  unfolding fail_missing append_event
  fail_missing-IsDecided w =
      ground (arith, after_missing-final (append_event port job now (missing_event job now) w))

  tests-IsDecided :
      (a b : Bool) (w : World S) (missing run : Done × World S) (state : ActionState)
      → (a ≡ true → runnable state ≡ false)
      → IsDecided missing
      → (is_ok run.0 ≡ true → IsDecided run)
      → is_ok (if a then (ok tt, w) else if b then missing else run).0 ≡ true
      → IsDecided (if a then (ok tt, w) else if b then missing else run) ⊎ (runnable state ≡ false)
  tests-IsDecided true b w missing run state r m d o = inr (r refl)
  tests-IsDecided false true w missing run state r m d o = inl m
  tests-IsDecided false false w missing run state r m d o = inl (d o)

  with_parts-IsDecided :
      (state : ActionState) (config : Option ActionConfig) (action_type : Option String)
      (w : World S)
      → state.config ≡ config
      → state.action_type ≡ action_type
      → is_ok (with_parts port job now source_label state config action_type w).0 ≡ true
      → IsDecided (with_parts port job now source_label state config action_type w)
        ⊎ (runnable state ≡ false)
  unfolding with_parts
  with_parts-IsDecided state none action_type w e f o = inr (ground arith)
  with_parts-IsDecided state (some config) none w e f o = inr (ground arith)
  with_parts-IsDecided state (some config) (some action_type) w e f o =
      tests-IsDecided
        (not (truthy state.action_id)
          || not (enabled_status state.status)
          || not (truthy (some action_type)))
        (any (family_missing job.ip_values) state.address_families) w
        (fail_missing port job now source_label w)
        (with_executor port job now source_label state config (port.executors action_type) w) state
        (λ a. ground (arith, e, f)) (fail_missing-IsDecided w)
        (with_executor-IsDecided state config (port.executors action_type) w) o

  -- The action that the attempt loads may not run.
  unfoldable pub NotRunnable : World S → Type 0
  NotRunnable w =
      (state : ActionState) × (port.load_action
          (append_event port job now (started_event job now) w).1.store
        ≡ ok state)
      × (runnable state ≡ false)

  with_action-IsDecided :
      (r : Result ActionState) (w : World S)
      → is_ok (with_action port job now source_label r w).0 ≡ true
      → IsDecided (with_action port job now source_label r w)
        ⊎ ((state : ActionState) × (r ≡ ok state) × (runnable state ≡ false))
  unfolding with_action
  with_action-IsDecided (err f) w o = cc
  with_action-IsDecided (ok state) w o =
      elim (with_parts-IsDecided state state.config state.action_type w refl refl o) [
        | inl d ↦ inl d
        | inr n ↦ inr (state, refl, n)
      ]

  after_started-IsDecided :
      (x : Done × World S)
      → is_ok (after_started port job now source_label x).0 ≡ true
      → IsDecided (after_started port job now source_label x)
        ⊎ ((state : ActionState) × (port.load_action x.1.store ≡ ok state)
            × (runnable state ≡ false))
  unfolding after_started
  after_started-IsDecided (err f, w) o = cc
  after_started-IsDecided (ok _, w) o = with_action-IsDecided (port.load_action w.store) w o

  -- Whatever the store, the executor and the channels answer: an attempt that ends without an error
  -- asked to record a success, or a failure as the last one, or the action that it loaded after
  -- `started` is not registered, not enabled, or without a configuration or a type.
  pub run_attempt_decides :
      (w : World S)
      → is_ok (run_attempt port job now source_label w).0 ≡ true
      → IsDecided (run_attempt port job now source_label w) ⊎ NotRunnable w
  unfolding run_attempt NotRunnable
  run_attempt_decides w o =
      after_started-IsDecided (append_event port job now (started_event job now) w) o
