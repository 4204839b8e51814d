-- ===== src/Event.antt =====
-- backend/src/ports/event-store.ts and backend/src/domain/cloud-events.ts: the stored event, the
-- input of an append, and the envelope that every event gets. A payload is the event's name with
-- its data; the children hold the payloads of each aggregate type (`events.ts` of each domain
-- folder).
pub mod Account
pub mod Action
pub mod Execution
pub mod IpClient
pub mod Settings
pub mod Provider
use Prim.Native.String.{◌++◌}
use fluxip.Base.{ℕ, String}
use Account.{AccountEvent, account_event_name}
use Action.{ActionEvent, action_event_name}
use Execution.{ActionExecutionEvent, action_execution_event_name}
use IpClient.{IpClientEvent, ip_client_event_name}
use Settings.{
  NotificationChannelEvent, notification_channel_event_name, ProviderCredentialEvent,
  provider_credential_event_name,
}
use Provider.{TraefikProviderEvent, traefik_provider_event_name}

-- `unknown` is any event whose name no reducer has a case for.
pub data Payload : Type 0 where
  of_account : AccountEvent → Payload
  of_action : ActionEvent → Payload
  of_execution : ActionExecutionEvent → Payload
  of_ip_client : IpClientEvent → Payload
  of_channel : NotificationChannelEvent → Payload
  of_credential : ProviderCredentialEvent → Payload
  of_provider : TraefikProviderEvent → Payload
  unknown : String → Payload

abbrev pub event_name : Payload → String
event_name (of_account e) = account_event_name e
event_name (of_action e) = action_event_name e
event_name (of_execution e) = action_execution_event_name e
event_name (of_ip_client e) = ip_client_event_name e
event_name (of_channel e) = notification_channel_event_name e
event_name (of_credential e) = provider_credential_event_name e
event_name (of_provider e) = traefik_provider_event_name e
event_name (unknown name) = name

-- `eventName` and `data` are the payload.
pub record StoredEvent : Type 0 where
  pub id : String
  pub aggregate_type : String
  pub aggregate_id : String
  pub sequence_number : ℕ
  pub account_id : String
  pub type : String
  pub source : String
  pub time : String
  pub payload : Payload

pub record AppendEventInput : Type 0 where
  pub id : String
  pub aggregate_type : String
  pub aggregate_id : String
  pub account_id : String
  pub expected_sequence_number : ℕ
  pub type : String
  pub source : String
  pub time : String
  pub payload : Payload

-- The key of a stream: the parameters of `readStream` and of `loadAggregate`.
pub record ReadStreamParams : Type 0 where
  pub account_id : String
  pub aggregate_type : String
  pub aggregate_id : String

pub record ListAggregateIdsParams : Type 0 where
  pub account_id : String
  pub aggregate_type : String

-- What a call of a function may throw: the concurrency error of the event store, or another error
-- with its message.
pub data Failure : Type 0 where
  concurrency_error : String → String → ℕ → Failure
  failure : String → Failure

pub data Result {ℓ} (A : Type ℓ) : Type ℓ where
  ok : A → Result A
  err : Failure → Result A

-- The part of the configuration that the envelope reads.
pub record CloudEventsConfig : Type 0 where
  pub cloud_events_source : String
  pub cloud_events_type_prefix : String

pub record BuiltEvent : Type 0 where
  pub id : String
  pub type : String
  pub source : String
  pub time : String
  pub payload : Payload

-- What the process reads from outside while it builds one event: a new ULID and the clock.
pub record Stamp : Type 0 where
  pub ulid : String
  pub now : String

unfoldable pub build_domain_event : CloudEventsConfig → String → Payload → Stamp → BuiltEvent
build_domain_event config aggregate_type payload stamp = record {
  id = stamp.ulid;
  type = config.cloud_events_type_prefix ++ "." ++ aggregate_type ++ "." ++ event_name payload;
  source = config.cloud_events_source;
  time = stamp.now;
  payload = payload;
}

-- The literal that every caller of `append` writes around a built event.
unfoldable pub append_input : ReadStreamParams → ℕ → BuiltEvent → AppendEventInput
append_input p expected built = record {
  id = built.id;
  aggregate_type = p.aggregate_type;
  aggregate_id = p.aggregate_id;
  account_id = p.account_id;
  expected_sequence_number = expected;
  type = built.type;
  source = built.source;
  time = built.time;
  payload = built.payload;
}
