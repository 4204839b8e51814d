-- ===== src/Agent/Session/Handler.antt =====
-- The methods of `AgentSessionHandler`: what a message, a tick of the timer and the end of the
-- transport do.
use Prim.Native.String.{◌++◌}
use fluxip.Base.{
  ℕ, suc, ◌-◌, ◌*◌, Bool, true, false, not, ◌&&◌, ◌||◌, Option, none, some, ltb, truthy, nonempty,
  is_some, if◌then◌else◌,
}
use fluxip.Event.{Result, ok, err}
use fluxip.Event.Provider.{
  TraefikProviderEvent, agent_connected, agent_disconnected, snapshot_applied,
  snapshot_apply_failed, closed, timeout, error,
}
use fluxip.Aggregates.Provider.{TraefikProviderState}
use fluxip.Agent.Protocol.{
  AgentMessage, hello, snapshot, report, heartbeat, sync_request, bye, Hello, Report, ReportResult,
  report_ok, report_error, ignored_stale, protocol_min_version, protocol_max_version, CloseReason,
  code_ok, failed_precondition, deadline_exceeded, internal,
}
use fluxip.Agent.Registry.{ActiveSession, register, unregister}
use fluxip.Agent.Session.{
  Done, Deps, Session, send, call, terminate, dismiss, and_then, start_heartbeat,
  send_current_snapshot, append, greet, heartbeat_misses_allowed,
}

abbrev pub min : ℕ → ℕ → ℕ
min a b = if ltb b a then b else a

abbrev max : ℕ → ℕ → ℕ
max a b = if ltb a b then b else a

abbrev pub end_reason : Option CloseReason → Option CloseReason → CloseReason
end_reason (some reason) _ = reason
end_reason none (some reason) = reason
end_reason none none = record { code = code_ok; message = "closed"; disconnect = closed }

module _ {S : Type 0} (deps : Deps S) where
  abbrev pub own : ℕ → ActiveSession
  own now = record {
    provider_id = deps.provider_id;
    account_id = deps.account_id;
    session_id = deps.session_id;
    token_id = deps.token_id;
    connected_at = deps.to_iso_string now;
  }

  abbrev pub set_connected : Session S → Done × Session S
  set_connected m = (ok tt, record m { connected_recorded = true })

  -- The registration, with the session that had the provider before.
  unfoldable pub take_over : ℕ → Session S → Session S
  unfolding dismiss
  take_over now m =
      let (replaced, registry) = register (own now) m.registry in
      dismiss replaced (record m { hello_seen = true; registry = registry })

  abbrev pub connected_event : ℕ → ℕ → Hello → Bool → TraefikProviderEvent
  connected_event now accepted h replaced = agent_connected (record {
    session_id = deps.session_id;
    token_id = deps.token_id;
    agent_version = h.agent_version;
    protocol_version = accepted;
    max_offline_seconds = h.max_offline_seconds;
    replaced_previous = replaced;
    connected_at = deps.to_iso_string now;
  })

  unfoldable pub record_connect : ℕ → ℕ → Hello → Bool → Session S → Done × Session S
  unfolding and_then append
  record_connect now accepted h replaced m =
      and_then (append deps (connected_event now accepted h replaced) m) set_connected

  unfoldable pub send_and_watch : Session S → Done × Session S
  unfolding and_then send_current_snapshot start_heartbeat
  send_and_watch m = and_then (send_current_snapshot deps m) start_heartbeat

  unfoldable pub welcome : ℕ → ℕ → Hello → Bool → Session S → Done × Session S
  unfolding and_then greet send_and_watch record_connect
  welcome now accepted h replaced m =
      and_then (record_connect now accepted h replaced m)
        (λ m1. and_then (greet deps accepted m1) send_and_watch)

  unfoldable pub on_hello : ℕ → Hello → Session S → Done × Session S
  unfolding terminate take_over welcome
  on_hello now h m =
      let accepted = min h.protocol_version protocol_max_version in
      if ltb accepted protocol_min_version
      then (
        ok tt,
        terminate
            (record {
              code = failed_precondition;
              message =
                  "protocol_version_unsupported: agent speaks v"
                  ++ deps.to_text h.protocol_version
                  ++ ", server supports v"
                  ++ deps.to_text protocol_min_version
                  ++ "..v"
                  ++ deps.to_text protocol_max_version
                  ++ ", update the agent";
              disconnect = error;
            })
            m,
      )
      else welcome now accepted h (is_some (register (own now) m.registry).0) (take_over now m)

  unfoldable pub report_with : ℕ → Report → ReportResult → Session S → Done × Session S
  unfolding append
  report_with now r ignored_stale m = (ok tt, m)
  report_with now r report_ok m =
      append deps
        (snapshot_applied (record {
          version = r.version;
          correlation_id = r.correlation_id;
          agent_version = r.agent_version;
          stale = r.stale;
          files = r.files;
          templates = r.templates;
          traefik_check = r.traefik_check;
          applied_at = deps.to_iso_string now;
        }))
        m
  report_with now r report_error m =
      append deps
        (snapshot_apply_failed (record {
          version = r.version;
          correlation_id = r.correlation_id;
          reason = if nonempty r.error then r.error else "unknown error";
          applied_at = deps.to_iso_string now;
        }))
        m

  unfoldable pub on_report : ℕ → Report → Session S → Done × Session S
  unfolding report_with
  on_report now r m = report_with now r r.result m

  -- A message while no hello was seen.
  unfoldable pub first_message : ℕ → AgentMessage → Session S → Done × Session S
  unfolding terminate on_hello
  first_message now (hello h) m = on_hello now h m
  first_message now _ m = (
    ok tt,
    terminate
        (record {
          code = failed_precondition;
          message = "hello must be the first message";
          disconnect = error;
        })
        m,
  )

  unfoldable pub later_message : ℕ → AgentMessage → Session S → Done × Session S
  unfolding terminate on_report send_current_snapshot
  later_message now (hello _) m = (ok tt, m)
  later_message now (report r) m = on_report now r m
  later_message now sync_request m = send_current_snapshot deps m
  later_message now (heartbeat _) m = (ok tt, m)
  later_message now (bye reason) m = (
    ok tt,
    terminate
        (record {
          code = code_ok;
          message = if nonempty reason then reason else "agent said bye";
          disconnect = closed;
        })
        m,
  )
  later_message now (snapshot _) m = (ok tt, m)

  unfoldable pub process : ℕ → AgentMessage → Session S → Done × Session S
  unfolding first_message later_message
  process now message m =
      let received = record m { last_received_at = now } in
      if m.is_closed
      then (ok tt, m)
      else if not m.hello_seen
      then first_message now message received
      else later_message now message received

  unfoldable pub caught : Done × Session S → Session S
  unfolding terminate
  caught (ok _, m) = m
  caught (err _, m) =
      terminate (record { code = internal; message = "internal error"; disconnect = error }) m

  unfoldable pub handle : ℕ → AgentMessage → Session S → Session S
  unfolding caught process
  handle now message m = caught (process now message m)

  -- One tick of the interval timer that `startHeartbeat` set.
  unfoldable pub tick : ℕ → Session S → Session S
  unfolding terminate
  tick now m =
      if not m.heartbeat_timer || m.is_closed
      then m
      else if ltb (max 1 deps.agent_heartbeat_seconds * 1000 * heartbeat_misses_allowed)
          (now - m.last_received_at)
      then terminate
          (record { code = deadline_exceeded; message = "heartbeat timeout"; disconnect = timeout })
          m
      else call (send (heartbeat (suc m.nonce))) (record m { nonce = suc m.nonce })

  unfoldable pub swallowed : Done × Session S → Done × Session S
  swallowed (_, m) = (ok tt, m)

  unfoldable pub record_disconnect :
      ℕ → CloseReason → Result TraefikProviderState → Session S → Done × Session S
  unfolding append swallowed
  record_disconnect now reason (err f) m = (err f, m)
  record_disconnect now reason (ok state) m =
      if not (truthy state.provider_id)
      then (ok tt, m)
      else swallowed (
          append deps
            (agent_disconnected (record {
              session_id = deps.session_id;
              reason = reason.disconnect;
              disconnected_at = deps.to_iso_string now;
            }))
            m)

  unfoldable pub on_closed : ℕ → Option CloseReason → Session S → Done × Session S
  unfolding record_disconnect
  on_closed now reason m =
      let ended = record m {
        is_closed = true;
        is_finished = true;
        heartbeat_timer = false;
        registry = (unregister deps.provider_id deps.session_id m.registry).1;
      } in
      if m.is_closed && m.is_finished
      then (ok tt, m)
      else if not m.connected_recorded || m.disconnect_recorded
      then (ok tt, ended)
      else record_disconnect now (end_reason reason m.close_reason) (deps.store.load m.world)
          (record ended { disconnect_recorded = true })
