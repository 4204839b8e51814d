-- ===== src/Agent/Session/Messages.antt =====
-- The invariant on the calls of a session, for its messages.
use fluxip.Base.{
  ℕ, ◌≡◌, refl, ◌∙◌, inl, inr, ltb, Bool, true, false, is_some, if◌then◌else◌, arith, Bool-cases,
  not,
}
use fluxip.Event.{ok}
use fluxip.Agent.Protocol.{
  AgentMessage, hello, snapshot, report, heartbeat, sync_request, bye, Hello, Report, ReportResult,
  report_ok, report_error, ignored_stale, protocol_min_version, protocol_max_version,
}
use fluxip.Agent.Registry.{register}
use fluxip.Agent.Session.{
  Deps, Session, recorded, and_then, start_heartbeat, send_current_snapshot, append, greet,
}
use fluxip.Agent.Session.Handler.{
  take_over, welcome, on_hello, on_report, first_message, later_message, process, own, min,
  connected_event, record_connect, send_and_watch, report_with,
}
use fluxip.Agent.Session.Calls.{
  is_connect, count, IsOrderly, terminate-IsOrderly, snapshot_sent-IsOrderly, and_then-IsOrderly,
  if-IsOrderly, recorded-IsOrderly, greet-IsOrderly, connect-IsOrderly, take_over-IsOrderly,
}

module _ {S : Type 0} (deps : Deps S) where
  on_report-IsOrderly :
      (now : ℕ) (r : Report) (m : Session S) → IsOrderly m → IsOrderly (on_report deps now r m).1
  unfolding on_report report_with append recorded
  on_report-IsOrderly now r m h = by_result r.result
    where
      by_result : (result : ReportResult) → IsOrderly (report_with deps now r result m).1
      by_result report_ok = recorded-IsOrderly _ (deps.store.append _ m.world) m refl refl h
      by_result report_error = recorded-IsOrderly _ (deps.store.append _ m.world) m refl refl h
      by_result ignored_stale = h

  later_message-IsOrderly :
      (now : ℕ) (message : AgentMessage) (m : Session S)
      → IsOrderly m
      → IsOrderly (later_message deps now message m).1
  unfolding later_message send_current_snapshot
  later_message-IsOrderly now (hello _) m h = h
  later_message-IsOrderly now (snapshot _) m h = h
  later_message-IsOrderly now (heartbeat _) m h = h
  later_message-IsOrderly now (report r) m h = on_report-IsOrderly now r m h
  later_message-IsOrderly now sync_request m h =
      snapshot_sent-IsOrderly (deps.publisher.publish_now m.world) m h
  later_message-IsOrderly now (bye _) m h = terminate-IsOrderly _ m h

  welcome-IsOrderly :
      (now accepted : ℕ) (h : Hello) (replaced : Bool) (m : Session S)
      → IsOrderly m
      → m.hello_seen ≡ true
      → count is_connect m.calls ≡ 0
      → IsOrderly (welcome deps now accepted h replaced m).1
  unfolding welcome record_connect send_and_watch start_heartbeat send_current_snapshot IsOrderly
  welcome-IsOrderly now accepted h replaced m o seen none_yet =
      and_then-IsOrderly (record_connect deps now accepted h replaced m)
        (λ m1. and_then (greet deps accepted m1) (send_and_watch deps))
        (connect-IsOrderly deps (connected_event deps now accepted h replaced) m refl refl seen
          none_yet o)
        (λ m1 o1.
          and_then-IsOrderly (greet deps accepted m1) (send_and_watch deps)
            (greet-IsOrderly deps accepted m1 o1)
            (λ m2 o2.
              and_then-IsOrderly (send_current_snapshot deps m2) start_heartbeat
                (snapshot_sent-IsOrderly (deps.publisher.publish_now m2.world) m2 o2)
                (λ m3 o3. o3)))

  on_hello-IsOrderly :
      (now : ℕ) (h : Hello) (m : Session S)
      → IsOrderly m
      → m.hello_seen ≡ false
      → IsOrderly (on_hello deps now h m).1
  unfolding on_hello IsOrderly
  on_hello-IsOrderly now h m o unseen =
      let (kept, same, seen) = take_over-IsOrderly deps now m o in
      let none_yet : count is_connect m.calls ≡ 0 = ground arith in
      let accepted = min h.protocol_version protocol_max_version in
      elim (Bool-cases (ltb accepted protocol_min_version)) [
        | inl e ↦ rw e (terminate-IsOrderly _ m o)
        | inr e ↦ rw e (
            welcome-IsOrderly now accepted h (is_some (register (own deps now) m.registry).0)
              (take_over deps now m) kept seen (same ∙ none_yet))
      ]

  first_message-IsOrderly :
      (now : ℕ) (message : AgentMessage) (m : Session S)
      → IsOrderly m
      → m.hello_seen ≡ false
      → IsOrderly (first_message deps now message m).1
  unfolding first_message
  first_message-IsOrderly now (hello h) m o unseen = on_hello-IsOrderly now h m o unseen
  first_message-IsOrderly now (snapshot _) m o unseen = terminate-IsOrderly _ m o
  first_message-IsOrderly now (heartbeat _) m o unseen = terminate-IsOrderly _ m o
  first_message-IsOrderly now (report _) m o unseen = terminate-IsOrderly _ m o
  first_message-IsOrderly now sync_request m o unseen = terminate-IsOrderly _ m o
  first_message-IsOrderly now (bye _) m o unseen = terminate-IsOrderly _ m o

  pub process-IsOrderly :
      (now : ℕ) (message : AgentMessage) (m : Session S)
      → IsOrderly m
      → IsOrderly (process deps now message m).1
  unfolding process IsOrderly
  process-IsOrderly now message m o =
      let received = record m { last_received_at = now } in
      let first = first_message deps now message received in
      let later = later_message deps now message received in
      if-IsOrderly m.is_closed (ok tt, m) (if not m.hello_seen then first else later) (λ _. o)
        (λ _.
          if-IsOrderly (not m.hello_seen) first later
            (λ unseen. first_message-IsOrderly now message received o (ground arith))
            (λ _. later_message-IsOrderly now message received o))
