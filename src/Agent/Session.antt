-- ===== src/Agent/Session.antt =====
-- backend/src/domain/traefik-provider/agent-session-handler.ts: the session of one agent. The store
-- and the publisher are interfaces with a state `S`; what the handler asks of the channels and the
-- store is its list of calls, newest first. A message is handled to its end before the next input,
-- and a step reads the clock once.
pub mod Handler
pub mod Calls
pub mod Messages
pub mod Life
use Prim.Native.String.{◌++◌}
use fluxip.Base.{
  ℕ, suc, ◌+◌, ◌-◌, ◌*◌, String, Bool, true, false, not, ◌&&◌, ◌||◌, Option, none, some, List, [],
  ◌∷◌, ltb, truthy, nonempty, is_some, if◌then◌else◌,
}
use fluxip.Event.{StoredEvent, Failure, Result, ok, err}
use fluxip.Event.Provider.{
  TraefikProviderEvent, agent_connected, agent_disconnected, snapshot_applied,
  snapshot_apply_failed, closed, superseded, timeout, error,
}
use fluxip.Aggregates.Provider.{TraefikProviderState}
use fluxip.Agent.Protocol.{
  AgentMessage, hello, snapshot, report, heartbeat, sync_request, bye, Hello, Report, ReportResult,
  report_ok, report_error, ignored_stale, SnapshotPayload, protocol_min_version,
  protocol_max_version, CloseReason, code_ok, failed_precondition, aborted, deadline_exceeded,
  internal,
}
use fluxip.Agent.Registry.{ActiveSession, SessionRegistry, register, unregister}

-- What an awaited step without a value does: it ends, or it throws.
abbrev pub Done : Type 0
Done = Result {0} Unit

-- What the handler calls of the provider store.
pub record StorePort (S : Type 0) : Type 0 where
  pub load : S → Result TraefikProviderState
  pub load_active : S → Result (Option TraefikProviderState)
  pub append : TraefikProviderEvent → S → Result StoredEvent × S

pub record SnapshotSource (S : Type 0) : Type 0 where
  pub publish_now : S → Result (Option SnapshotPayload) × S

pub record Deps (S : Type 0) : Type 0 where
  pub provider_id : String
  pub account_id : String
  pub session_id : String
  pub token_id : String
  pub store : StorePort S
  pub publisher : SnapshotSource S
  pub agent_heartbeat_seconds : ℕ
  pub agent_snapshot_max_bytes : ℕ
  pub server_version : Option String
  pub to_iso_string : ℕ → String
  pub to_text : ℕ → String

pub data Call : Type 0 where
  send : AgentMessage → Call
  close : CloseReason → Call
  send_replaced : ActiveSession → AgentMessage → Call
  close_replaced : ActiveSession → CloseReason → Call
  record_event : TraefikProviderEvent → Call

pub record Session (S : Type 0) : Type 0 where
  pub hello_seen : Bool
  pub connected_recorded : Bool
  pub is_closed : Bool
  pub is_finished : Bool
  pub disconnect_recorded : Bool
  pub close_reason : Option CloseReason
  pub heartbeat_timer : Bool
  pub nonce : ℕ
  pub last_received_at : ℕ
  pub registry : SessionRegistry
  pub world : S
  pub calls : List Call

abbrev pub heartbeat_misses_allowed : ℕ
heartbeat_misses_allowed = 3

unfoldable pub new_session : {S : Type 0} → ℕ → SessionRegistry → S → Session S
new_session now registry world = record {
  hello_seen = false;
  connected_recorded = false;
  is_closed = false;
  is_finished = false;
  disconnect_recorded = false;
  close_reason = none;
  heartbeat_timer = false;
  nonce = 0;
  last_received_at = now;
  registry = registry;
  world = world;
  calls = [];
}

abbrev pub call : {S : Type 0} → Call → Session S → Session S
call c m = record m { calls = c ∷ m.calls }

unfoldable pub close_with : {S : Type 0} → Option CloseReason → CloseReason → Session S → Session S
close_with (some _) reason m = m
close_with none reason m = call (close reason) (record m { close_reason = some reason })

unfoldable pub terminate : {S : Type 0} → CloseReason → Session S → Session S
unfolding close_with
terminate reason m = close_with m.close_reason reason m

unfoldable pub dismiss : {S : Type 0} → Option ActiveSession → Session S → Session S
dismiss none m = m
dismiss (some replaced) m =
    call
      (close_replaced replaced (record {
        code = aborted;
        message = "superseded by a newer connection";
        disconnect = superseded;
      }))
      (call (send_replaced replaced (bye "superseded")) m)

-- The state that a call of the store or of the publisher leaves.
abbrev pub at_world : {S : Type 0} → S → Session S → Session S
at_world s m = record m { world = s }

unfoldable pub snapshot_sent :
    {S : Type 0} → Result (Option SnapshotPayload) × S → Session S → Done × Session S
snapshot_sent (err f, s) m = (err f, at_world s m)
snapshot_sent (ok none, s) m = (ok tt, at_world s m)
snapshot_sent (ok (some payload), s) m = (ok tt, call (send (snapshot payload)) (at_world s m))

unfoldable pub recorded :
    {S : Type 0} → TraefikProviderEvent → Result StoredEvent × S → Session S → Done × Session S
recorded e (err f, s) m = (err f, call (record_event e) (at_world s m))
recorded e (ok _, s) m = (ok tt, call (record_event e) (at_world s m))

abbrev pub name_of : Option TraefikProviderState → String
name_of none = ""
name_of (some state) = state.name

-- `await` of a step that may throw, then the rest.
unfoldable pub and_then :
    {S : Type 0} → Done × Session S → (Session S → Done × Session S) → Done × Session S
and_then (err f, m) rest = (err f, m)
and_then (ok _, m) rest = rest m

unfoldable pub start_heartbeat : {S : Type 0} → Session S → Done × Session S
start_heartbeat m = (ok tt, record m { heartbeat_timer = true; nonce = 0 })

abbrev pub or_fluxip : Option String → String
or_fluxip none = "fluxip"
or_fluxip (some version) = version

module _ {S : Type 0} (deps : Deps S) where
  unfoldable pub send_current_snapshot : Session S → Done × Session S
  unfolding snapshot_sent
  send_current_snapshot m = snapshot_sent (deps.publisher.publish_now m.world) m

  unfoldable pub append : TraefikProviderEvent → Session S → Done × Session S
  unfolding recorded
  append e m = recorded e (deps.store.append e m.world) m

  unfoldable pub greet_with :
      ℕ → Result (Option TraefikProviderState) → Session S → Done × Session S
  greet_with accepted (err f) m = (err f, m)
  greet_with accepted (ok loaded) m = (
    ok tt,
    call
        (send (
          hello (record {
            protocol_version = protocol_max_version;
            agent_version = or_fluxip deps.server_version;
            max_offline_seconds = 0;
            heartbeat_seconds = deps.agent_heartbeat_seconds;
            max_snapshot_bytes = deps.agent_snapshot_max_bytes;
            provider_name = name_of loaded;
            accepted_version = accepted;
          })))
        m,
  )

  unfoldable pub greet : ℕ → Session S → Done × Session S
  unfolding greet_with
  greet accepted m = greet_with accepted (deps.store.load_active m.world) m
