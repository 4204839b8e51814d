-- ===== src/Executions/Notify.antt =====
-- `maybeSendNotification` of backend/src/adapters/queue-bullmq/action-execution-worker.ts, and the
-- append to the execution's stream.
use fluxip.Base.{
  ◌≡◌, refl, ◌⊎◌, inl, inr, String, Bool, true, false, ◌&&◌, Option, none, some, List, [], ◌∷◌,
  truthy, if◌then◌else◌, Bool-cases,
}
use fluxip.Event.{Result, ok, err}
use fluxip.Event.Execution.{
  ActionExecutionEvent, ActionExecutionNotificationSentData, notification_sent, Outcome, succeeded,
}
use fluxip.Event.IpClient.{NotificationPreference, off, failures_only}
use fluxip.Aggregates.IpClient.{IpClientState}
use fluxip.Aggregates.Settings.{NotificationChannelState, SettingStatus, in_use, withdrawn}
use fluxip.Executions.{Done, WorkerPort, ActionExecutionJob, World, NotificationMessage}

abbrev pub wants : NotificationPreference → Outcome → Bool
wants off _ = false
wants failures_only succeeded = false
wants _ _ = true

abbrev pub is_in_use : SettingStatus → Bool
is_in_use in_use = true
is_in_use withdrawn = false

abbrev some_address : List String → Bool
some_address [] = false
some_address (_ ∷ _) = true

unfoldable pub is_ready : NotificationChannelState → Bool
is_ready channel =
    truthy channel.channel_id && is_in_use channel.status && some_address channel.addresses

abbrev channel_id_of : Option String → String
channel_id_of none = ""
channel_id_of (some id) = id

module _ {S : Type 0} (port : WorkerPort S) (job : ActionExecutionJob) (now : String) where
  appended : ActionExecutionEvent → World S → Done × S → Done × World S
  appended event w (r, store) = (r, record w { store = store; recorded = event ∷ w.recorded })

  -- `appendExecutionEvent`
  unfoldable pub append_event : ActionExecutionEvent → World S → Done × World S
  unfolding appended
  append_event event w = appended event w (port.append_execution event w.store)

  refreshed : World S → Done × S → Done × World S
  refreshed w (r, store) = (r, record w { store = store })

  unfoldable pub refresh_projection : World S → Done × World S
  unfolding refreshed
  refresh_projection w = refreshed w (port.refresh w.store)

  unfoldable pub after_sent :
      NotificationChannelState → Outcome → NotificationMessage → World S → Done × S → Done × World S
  unfolding append_event
  after_sent channel outcome m w (err f, store) =
      (err f, record w { store = store; sent = m ∷ w.sent })
  after_sent channel outcome m w (ok _, store) =
      append_event
        (notification_sent (record {
          channel_id = channel_id_of channel.channel_id;
          outcome_notified = outcome;
          sent_at = now;
        }))
        (record w { store = store; sent = m ∷ w.sent })

  unfoldable pub send_over :
      NotificationChannelState
      → Outcome
      → Option (NotificationMessage → S → Done × S)
      → World S
      → Done × World S
  unfolding after_sent
  send_over channel outcome none w = (ok tt, w)
  send_over channel outcome (some send) w =
      let m : NotificationMessage = record {
        addresses = channel.addresses;
        execution_id = job.execution_id;
        ip_client_id = job.ip_client_id;
        outcome = outcome;
      } in
      after_sent channel outcome m w (send m w.store)

  unfoldable pub with_channel : Outcome → Result NotificationChannelState → World S → Done × World S
  unfolding send_over is_ready
  with_channel outcome (err f) w = (err f, w)
  with_channel outcome (ok channel) w =
      let sent = send_over channel outcome (port.channels channel.channel_type) w in
      if is_ready channel then sent else (ok tt, w)

  unfoldable pub with_client : Outcome → Result IpClientState → World S → Done × World S
  unfolding with_channel
  with_client outcome (err f) w = (err f, w)
  with_client outcome (ok client) w =
      let sent = with_channel outcome (port.load_channel w.store) w in
      if wants client.notification_preference outcome then sent else (ok tt, w)

  -- The catch: an error is logged.
  unfoldable pub maybe_send_notification : Outcome → World S → World S
  unfolding with_client
  maybe_send_notification outcome w = (with_client outcome (port.load_client w.store) w).1

  -- What a notification leaves behind: nothing, or one message to the addresses of the active
  -- channel, with at most the record that it was sent.
  pub data Notified (w : World S) (outcome : Outcome) (v : World S) : Type 0 where
    silent : v ≡ w → Notified w outcome v
    one_message :
        (client : IpClientState) (channel : NotificationChannelState) (m : NotificationMessage)
        → port.load_client w.store ≡ ok client
        → wants client.notification_preference outcome ≡ true
        → port.load_channel w.store ≡ ok channel
        → is_ready channel ≡ true
        → m.addresses ≡ channel.addresses
        → v.sent ≡ m ∷ w.sent
        → v.executed ≡ w.executed
        → (v.recorded ≡ w.recorded)
          ⊎ ((d : ActionExecutionNotificationSentData) × (v.recorded
                ≡ notification_sent d ∷ w.recorded))
        → Notified w outcome v

  after_sent_lem :
      (channel : NotificationChannelState) (outcome : Outcome) (m : NotificationMessage)
      (w : World S) (r : Done × S)
      → ((after_sent channel outcome m w r).1.sent ≡ m ∷ w.sent)
        × ((after_sent channel outcome m w r).1.executed ≡ w.executed)
        × (((after_sent channel outcome m w r).1.recorded ≡ w.recorded)
            ⊎ ((d : ActionExecutionNotificationSentData) × ((after_sent channel outcome m w
                    r).1.recorded
                  ≡ notification_sent d ∷ w.recorded)))
  unfolding after_sent append_event
  after_sent_lem channel outcome m w (err f, store) = (refl, refl, inl refl)
  after_sent_lem channel outcome m w (ok _, store) = (refl, refl, inr (_, refl))

  send_over-Notified :
      (outcome : Outcome) (w : World S) (client : IpClientState)
      (channel : NotificationChannelState) (send : Option (NotificationMessage → S → Done × S))
      → port.load_client w.store ≡ ok client
      → wants client.notification_preference outcome ≡ true
      → port.load_channel w.store ≡ ok channel
      → is_ready channel ≡ true
      → Notified w outcome (send_over channel outcome send w).1
  unfolding send_over
  send_over-Notified outcome w client channel none e1 e2 e3 e4 = silent refl
  send_over-Notified outcome w client channel (some send) e1 e2 e3 e4 =
      let m : NotificationMessage = record {
        addresses = channel.addresses;
        execution_id = job.execution_id;
        ip_client_id = job.ip_client_id;
        outcome = outcome;
      } in
      let (a, b, c) = after_sent_lem channel outcome m w (send m w.store) in
      one_message client channel m e1 e2 e3 e4 refl a b c

  with_channel-Notified :
      (outcome : Outcome) (w : World S) (client : IpClientState)
      (r : Result NotificationChannelState)
      → port.load_client w.store ≡ ok client
      → wants client.notification_preference outcome ≡ true
      → port.load_channel w.store ≡ r
      → Notified w outcome (with_channel outcome r w).1
  unfolding with_channel
  with_channel-Notified outcome w client (err f) e1 e2 e3 = silent refl
  with_channel-Notified outcome w client (ok channel) e1 e2 e3 =
      elim (Bool-cases (is_ready channel)) [
        | inl e ↦ rw e (
            send_over-Notified outcome w client channel (port.channels channel.channel_type) e1 e2
              e3 e)
        | inr e ↦ rw e (silent refl)
      ]

  with_client-Notified :
      (outcome : Outcome) (w : World S) (r : Result IpClientState)
      → port.load_client w.store ≡ r
      → Notified w outcome (with_client outcome r w).1
  unfolding with_client
  with_client-Notified outcome w (err f) e = silent refl
  with_client-Notified outcome w (ok client) e =
      elim (Bool-cases (wants client.notification_preference outcome)) [
        | inl h ↦ rw h (with_channel-Notified outcome w client (port.load_channel w.store) e h refl)
        | inr h ↦ rw h (silent refl)
      ]

  -- Whatever the store and the channels answer, a notification leaves nothing behind, or one message
  -- to the addresses of the active channel, when the device's preference wants the outcome, with at
  -- most the record that it was sent.
  pub maybe_send_notification-Notified :
      (outcome : Outcome) (w : World S) → Notified w outcome (maybe_send_notification outcome w)
  unfolding maybe_send_notification
  maybe_send_notification-Notified outcome w =
      with_client-Notified outcome w (port.load_client w.store) refl
