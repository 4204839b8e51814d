-- ===== src/Agent/Protocol.antt =====
-- backend/src/domain/traefik-provider/agent-protocol.ts, with the payload of a snapshot from
-- snapshot.ts beside it.
use fluxip.Base.{ℕ, String, Bool, Option, List}
use fluxip.Event.Provider.{DisconnectReason, TraefikCheckResult, FileChecksum}

pub record SnapshotEntry : Type 0 where
  pub device_name : String
  pub ips : List String

pub record SnapshotGroup : Type 0 where
  pub key : String
  pub entries : List SnapshotEntry

pub record SnapshotContent : Type 0 where
  pub provider_name : String
  pub groups : List SnapshotGroup

pub record SnapshotPayload : Type 0 where
  pub content : SnapshotContent
  pub version : ℕ
  pub correlation_id : String
  pub generated_at : String

pub record Hello : Type 0 where
  pub protocol_version : ℕ
  pub agent_version : String
  pub max_offline_seconds : ℕ
  pub heartbeat_seconds : ℕ
  pub max_snapshot_bytes : ℕ
  pub provider_name : String
  pub accepted_version : ℕ

pub data ReportResult : Type 0 where
  report_ok report_error ignored_stale : ReportResult

pub record Report : Type 0 where
  pub version : ℕ
  pub correlation_id : String
  pub result : ReportResult
  pub error : String
  pub agent_version : String
  pub stale : Bool
  pub files : List FileChecksum
  pub templates : List FileChecksum
  pub traefik_check : Option TraefikCheckResult

pub data AgentMessage : Type 0 where
  hello : Hello → AgentMessage
  snapshot : SnapshotPayload → AgentMessage
  report : Report → AgentMessage
  heartbeat : ℕ → AgentMessage
  sync_request : AgentMessage
  bye : String → AgentMessage

abbrev pub protocol_min_version : ℕ
protocol_min_version = 1

abbrev pub protocol_max_version : ℕ
protocol_max_version = 1

pub data CloseCode : Type 0 where
  code_ok unauthenticated failed_precondition aborted unavailable deadline_exceeded internal :
      CloseCode

pub record CloseReason : Type 0 where
  pub code : CloseCode
  pub message : String
  pub disconnect : DisconnectReason
