-- ===== src/Executions/Attempt.antt =====
-- What one attempt records, whatever the store, the executor and the channels answer.
use fluxip.Base.{
  ◌≡◌, refl, ap, ◌∙◌, sym, inl, inr, ◌<◌, String, Bool, true, false, not, ◌||◌, Option, none, some,
  ◌∷◌, any, get_or, truthy, if◌then◌else◌, arith,
}
use fluxip.Event.{Result, ok, err, Failure}
use fluxip.Event.Action.{IpValues, ActionConfig}
use fluxip.Event.Execution.{
  ActionExecutionEvent, started, execution_succeeded, execution_failed, retry_scheduled,
  notification_sent, Outcome, failed,
}
use fluxip.Aggregates.Action.{ActionState}
use fluxip.Devices.FanOut.{enabled_status}
use fluxip.Executions.{Done, WorkerPort, ActionExecutionJob, World, ResolvedConfig}
use fluxip.Executions.Notify.{
  append_event, refresh_projection, maybe_send_notification, Notified, silent, one_message,
  maybe_send_notification-Notified,
}
use fluxip.Executions.Resolve.{
  family_missing, relevant_values, attempt_of, is_final_attempt, is_firewall, resolve_config,
}
use fluxip.Executions.Worker.{
  notify_success, after_success, after_execute, with_config, after_refresh, after_failure,
  catch_failure, with_executor, notify_missing, after_missing, fail_missing, with_parts,
  with_action, after_started, run_attempt, missing_event, failed_event, started_event,
  append_firewall_rule_applied,
}

abbrev pub is_ok : Done → Bool
is_ok (ok _) = true
is_ok (err _) = false

abbrev pub is_success : ActionExecutionEvent → Bool
is_success (execution_succeeded _) = true
is_success _ = false

-- A failure that is recorded as the last one, and one that is not.
abbrev pub is_final_failure : ActionExecutionEvent → Bool
is_final_failure (execution_failed d) = d.retries_exhausted
is_final_failure _ = false

abbrev pub is_open_failure : ActionExecutionEvent → Bool
is_open_failure (execution_failed d) = not d.retries_exhausted
is_open_failure _ = false

abbrev pub is_notification : ActionExecutionEvent → Bool
is_notification (notification_sent _) = true
is_notification _ = false

-- A test that no notification passes.
abbrev pub Silent : (ActionExecutionEvent → Bool) → Type 0
Silent p = (e : ActionExecutionEvent) → is_notification e ≡ true → p e ≡ false

open-Silent : Silent is_open_failure
open-Silent (notification_sent _) h = refl
open-Silent (started _) h = refl
open-Silent (execution_succeeded _) h = refl
open-Silent (execution_failed _) h = cc
open-Silent (retry_scheduled _) h = refl

open-success : (e : ActionExecutionEvent) → is_success e ≡ true → is_open_failure e ≡ false
open-success (notification_sent _) h = refl
open-success (started _) h = refl
open-success (execution_succeeded _) h = refl
open-success (execution_failed _) h = cc
open-success (retry_scheduled _) h = refl

module _ {S : Type 0} (port : WorkerPort S) (job : ActionExecutionJob)
    (now source_label : String) where
  module _ (p : ActionExecutionEvent → Bool) (q : Silent p) where
    pub Notified-any :
        (outcome : Outcome) (w v : World S)
        → Notified port job now w outcome v
        → any p v.recorded ≡ any p w.recorded
    Notified-any outcome w v (silent e) = ap (λ (u : World S). any p u.recorded) e
    Notified-any outcome w v (one_message _ _ _ _ _ _ _ _ _ _ (inl e)) = ap (any p) e
    Notified-any outcome w v (one_message _ _ _ _ _ _ _ _ _ _ (inr (d, e))) =
        rw (e, q (notification_sent d) refl) refl

    pub notify-any :
        (outcome : Outcome) (w : World S)
        → any p (maybe_send_notification port job now outcome w).recorded ≡ any p w.recorded
    notify-any outcome w =
        Notified-any outcome w _ (maybe_send_notification-Notified port job now outcome w)

    pub append_event-any :
        (e : ActionExecutionEvent) (w : World S)
        → any p (append_event port job now e w).1.recorded ≡ (p e || any p w.recorded)
    unfolding append_event
    append_event-any e w = refl

    pub refresh-any :
        (w : World S) → any p (refresh_projection port job now w).1.recorded ≡ any p w.recorded
    unfolding refresh_projection
    refresh-any w = refl

    pub notify_success-any :
        (x : Done × World S)
        → any p (notify_success port job now source_label x).1.recorded ≡ any p x.1.recorded
    unfolding notify_success
    notify_success-any (err f, w) = refl
    notify_success-any (ok _, w) = notify-any _ w

    applied-any :
        (b : Bool) (values : IpValues) (w : World S)
        → any p
            (if b
              then append_firewall_rule_applied port job now source_label values w
              else w).recorded
          ≡ any p w.recorded
    unfolding append_firewall_rule_applied
    applied-any true values w = refl
    applied-any false values w = refl

    pub after_success-any :
        (state : ActionState) (values : IpValues) (x : Done × World S)
        → any p (after_success port job now source_label state values x).1.recorded
          ≡ any p x.1.recorded
    unfolding after_success
    after_success-any state values (err f, w) = refl
    after_success-any state values (ok _, w) =
        let v =
          if is_firewall state.action_type
          then append_firewall_rule_applied port job now source_label values w
          else w in
        notify_success-any (refresh_projection port job now v)
        ∙ refresh-any v
        ∙ applied-any (is_firewall state.action_type) values w

    module _ (s : (e : ActionExecutionEvent) → is_success e ≡ true → p e ≡ false) where
      pub after_execute-any :
          (state : ActionState) (values : IpValues) (w : World S) (x : Result String × S)
          → any p (after_execute port job now source_label state values w x).1.recorded
            ≡ any p w.recorded
      unfolding after_execute
      after_execute-any state values w (err f, store) = refl
      after_execute-any state values w (ok summary, store) =
          let e =
            execution_succeeded
              (record { completed_at = now; provider_response_summary = summary }) in
          let v : World S = record w { store = store; executed = values ∷ w.executed } in
          after_success-any state values (append_event port job now e v)
          ∙ append_event-any e v
          ∙ rw (s e refl) refl

      -- Until the catch, an attempt records a success and notifications only.
      pub with_config-any :
          (state : ActionState) (execute : ResolvedConfig → IpValues → S → Result String × S)
          (values : IpValues) (r : Result ResolvedConfig) (w : World S)
          → any p (with_config port job now source_label state execute values r w).1.recorded
            ≡ any p w.recorded
      unfolding with_config
      with_config-any state execute values (err f) w = refl
      with_config-any state execute values (ok config) w =
          after_execute-any state values w (execute config values w.store)

  -- A failure that stays open is thrown, and an attempt is left.
  IsRetried : Done × World S → Type 0
  IsRetried x =
      any is_open_failure x.1.recorded ≡ true → (is_ok x.0 ≡ false) × (is_final_attempt job ≡ false)

  notified-open :
      (b : Bool) (outcome : Outcome) (w : World S)
      → any is_open_failure
          (if b then maybe_send_notification port job now outcome w else w).recorded
        ≡ any is_open_failure w.recorded
  notified-open true outcome w = notify-any is_open_failure open-Silent outcome w
  notified-open false outcome w = refl

  after_refresh-IsRetried :
      (f : Failure) (x : Done × World S)
      → (any is_open_failure x.1.recorded ≡ true → is_final_attempt job ≡ false)
      → IsRetried (after_refresh port job now source_label f x)
  unfolding IsRetried after_refresh
  after_refresh-IsRetried f (err g, w) h = λ o. (refl, h o)
  after_refresh-IsRetried f (ok _, w) h =
      λ o. (refl, h (sym (notified-open (is_final_attempt job) failed w) ∙ o))

  after_failure-IsRetried :
      (f : Failure) (x : Done × World S)
      → (any is_open_failure x.1.recorded ≡ true → is_final_attempt job ≡ false)
      → IsRetried (after_failure port job now source_label f x)
  unfolding IsRetried after_failure refresh_projection
  after_failure-IsRetried f (err g, w) h = λ o. (refl, h o)
  after_failure-IsRetried f (ok _, w) h =
      after_refresh-IsRetried f (refresh_projection port job now w) h

  catch_failure-IsRetried :
      (x : Done × World S)
      → any is_open_failure x.1.recorded ≡ false
      → IsRetried (catch_failure port job now source_label x)
  unfolding IsRetried catch_failure append_event
  catch_failure-IsRetried (ok _, w) h = λ o. cc
  catch_failure-IsRetried (err f, w) h =
      after_failure-IsRetried f (append_event port job now (failed_event job now f) w)
        (λ o. ground arith)

  with_executor-IsRetried :
      (state : ActionState) (config : ActionConfig)
      (r : Option (ResolvedConfig → IpValues → S → Result String × S)) (w : World S)
      → any is_open_failure w.recorded ≡ false
      → IsRetried (with_executor port job now source_label state config r w)
  unfolding IsRetried with_executor
  with_executor-IsRetried state config none w h = λ o. cc
  with_executor-IsRetried state config (some execute) w h =
      let values = relevant_values state.address_families job.ip_values in
      let resolved = resolve_config port job source_label state config w.store in
      catch_failure-IsRetried
        (with_config port job now source_label state execute values resolved w)
        (with_config-any is_open_failure open-Silent open-success state execute values resolved w
          ∙ h)

  notify_missing-open :
      (x : Done × World S)
      → any is_open_failure (notify_missing port job now source_label x).1.recorded
        ≡ any is_open_failure x.1.recorded
  unfolding notify_missing
  notify_missing-open (err f, w) = refl
  notify_missing-open (ok _, w) = notify-any is_open_failure open-Silent failed w

  after_missing-open :
      (x : Done × World S)
      → any is_open_failure (after_missing port job now source_label x).1.recorded
        ≡ any is_open_failure x.1.recorded
  unfolding after_missing refresh_projection
  after_missing-open (err f, w) = refl
  after_missing-open (ok _, w) = notify_missing-open (refresh_projection port job now w)

  fail_missing-open :
      (w : World S)
      → any is_open_failure (fail_missing port job now source_label w).1.recorded
        ≡ any is_open_failure w.recorded
  unfolding fail_missing append_event
  fail_missing-open w = after_missing-open (append_event port job now (missing_event job now) w)

  with_parts-IsRetried :
      (state : ActionState) (config : Option ActionConfig) (action_type : Option String)
      (w : World S)
      → any is_open_failure w.recorded ≡ false
      → IsRetried (with_parts port job now source_label state config action_type w)
  unfolding IsRetried with_parts
  with_parts-IsRetried state none action_type w h = λ o. cc
  with_parts-IsRetried state (some config) none w h = λ o. cc
  with_parts-IsRetried state (some config) (some action_type) w h =
      by_tests
        (not (truthy state.action_id)
          || not (enabled_status state.status)
          || not (truthy (some action_type)))
        (any (family_missing job.ip_values) state.address_families)
    where
      by_tests :
          (a b : Bool)
          → IsRetried (
              if a
              then (ok tt, w)
              else if b
              then fail_missing port job now source_label w
              else with_executor port job now source_label state config
                  (port.executors action_type)
                  w)
      by_tests true b = λ o. cc
      by_tests false true = λ o. cc (fail_missing-open w)
      by_tests false false = with_executor-IsRetried state config (port.executors action_type) w h

  with_action-IsRetried :
      (r : Result ActionState) (w : World S)
      → any is_open_failure w.recorded ≡ false
      → IsRetried (with_action port job now source_label r w)
  unfolding IsRetried with_action
  with_action-IsRetried (err f) w h = λ o. cc
  with_action-IsRetried (ok state) w h =
      with_parts-IsRetried state state.config state.action_type w h

  after_started-IsRetried :
      (x : Done × World S)
      → any is_open_failure x.1.recorded ≡ false
      → IsRetried (after_started port job now source_label x)
  unfolding IsRetried after_started
  after_started-IsRetried (err f, w) h = λ o. cc
  after_started-IsRetried (ok _, w) h = with_action-IsRetried (port.load_action w.store) w h

  -- Whatever the store, the executor and the channels answer: if an attempt, from a log without one,
  -- asks to record a failure that is not the last one, it ends with an error, for which the queue
  -- runs the job again, and the job has attempts left.
  pub run_attempt-open :
      (w : World S)
      → any is_open_failure w.recorded ≡ false
      → any is_open_failure (run_attempt port job now source_label w).1.recorded ≡ true
      → (is_ok (run_attempt port job now source_label w).0 ≡ false)
        × (attempt_of job < get_or job.attempts 1)
  unfolding run_attempt append_event IsRetried
  run_attempt-open w h o =
      let (e, n) =
        after_started-IsRetried (append_event port job now (started_event job now) w) h o in
      (e, ground arith)
