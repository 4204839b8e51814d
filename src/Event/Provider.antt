-- ===== src/Event/Provider.antt =====
-- backend/src/domain/traefik-provider/events.ts
use fluxip.Base.{ℕ, String, Option, List, Bool}

abbrev pub traefik_provider_aggregate_type : String
traefik_provider_aggregate_type = "traefik_provider"

pub data ConnectionMode : Type 0 where
  agent_initiated server_initiated : ConnectionMode

pub record TraefikProviderCreatedData : Type 0 where
  pub provider_id : String
  pub account_id : String
  pub name : String
  pub connection_mode : ConnectionMode
  pub created_at : String

pub record TraefikProviderRenamedData : Type 0 where
  pub name : String
  pub renamed_at : String

pub record TraefikProviderTokenIssuedData : Type 0 where
  pub token_id : String
  pub token_hash : String
  pub last4 : String
  pub issued_at : String

pub record TraefikProviderTokenRevokedData : Type 0 where
  pub token_id : String
  pub revoked_at : String

-- An absent `absorbedCausationIds` is the empty list: the code reads it by `?? []`.
pub record TraefikProviderSnapshotPublishedData : Type 0 where
  pub content_hash : String
  pub group_count : ℕ
  pub entry_count : ℕ
  pub correlation_id : String
  pub absorbed_causation_ids : List String
  pub published_at : String

pub data PublishFailureReason : Type 0 where
  too_large internal : PublishFailureReason

pub record TraefikProviderSnapshotPublishFailedData : Type 0 where
  pub reason : PublishFailureReason
  pub correlation_id : String
  pub absorbed_causation_ids : List String
  pub failed_at : String

pub data DisconnectReason : Type 0 where
  closed superseded revoked timeout error : DisconnectReason

pub record TraefikProviderAgentConnectedData : Type 0 where
  pub session_id : String
  pub token_id : String
  pub agent_version : String
  pub protocol_version : ℕ
  pub max_offline_seconds : ℕ
  pub replaced_previous : Bool
  pub connected_at : String

pub record TraefikProviderAgentDisconnectedData : Type 0 where
  pub session_id : String
  pub reason : DisconnectReason
  pub disconnected_at : String

pub record FileChecksum : Type 0 where
  pub name : String
  pub sha256 : String

pub data CheckStatus : Type 0 where
  ok missing unreachable : CheckStatus

pub record TraefikCheckResult : Type 0 where
  pub status : CheckStatus
  pub loaded : List String
  pub missing_names : List String

pub record TraefikProviderSnapshotAppliedData : Type 0 where
  pub version : ℕ
  pub correlation_id : String
  pub agent_version : String
  pub stale : Bool
  pub files : List FileChecksum
  pub templates : List FileChecksum
  pub traefik_check : Option TraefikCheckResult
  pub applied_at : String

pub record TraefikProviderSnapshotApplyFailedData : Type 0 where
  pub version : ℕ
  pub correlation_id : String
  pub reason : String
  pub applied_at : String

pub data TraefikProviderEvent : Type 0 where
  created : TraefikProviderCreatedData → TraefikProviderEvent
  renamed : TraefikProviderRenamedData → TraefikProviderEvent
  deleted : String → TraefikProviderEvent
  token_issued : TraefikProviderTokenIssuedData → TraefikProviderEvent
  token_revoked : TraefikProviderTokenRevokedData → TraefikProviderEvent
  snapshot_published : TraefikProviderSnapshotPublishedData → TraefikProviderEvent
  snapshot_publish_failed : TraefikProviderSnapshotPublishFailedData → TraefikProviderEvent
  agent_connected : TraefikProviderAgentConnectedData → TraefikProviderEvent
  agent_disconnected : TraefikProviderAgentDisconnectedData → TraefikProviderEvent
  snapshot_applied : TraefikProviderSnapshotAppliedData → TraefikProviderEvent
  snapshot_apply_failed : TraefikProviderSnapshotApplyFailedData → TraefikProviderEvent

abbrev pub traefik_provider_event_name : TraefikProviderEvent → String
traefik_provider_event_name (created _) = "created"
traefik_provider_event_name (renamed _) = "renamed"
traefik_provider_event_name (deleted _) = "deleted"
traefik_provider_event_name (token_issued _) = "token_issued"
traefik_provider_event_name (token_revoked _) = "token_revoked"
traefik_provider_event_name (snapshot_published _) = "snapshot_published"
traefik_provider_event_name (snapshot_publish_failed _) = "snapshot_publish_failed"
traefik_provider_event_name (agent_connected _) = "agent_connected"
traefik_provider_event_name (agent_disconnected _) = "agent_disconnected"
traefik_provider_event_name (snapshot_applied _) = "snapshot_applied"
traefik_provider_event_name (snapshot_apply_failed _) = "snapshot_apply_failed"
