-- ===== src/Aggregates/Provider.antt =====
-- backend/src/domain/traefik-provider/traefik-provider-aggregate.ts
pub mod Tokens
use fluxip.Base.{
  ℕ, String, Bool, not, ◌&&◌, Option, none, some, List, [], ◌∷◌, ◌++◌, map, ◌==◌, truthy, nonempty,
  if◌then◌else◌, filter,
}
use fluxip.Event.{Payload, of_provider, StoredEvent}
use fluxip.Event.Provider.{
  ConnectionMode, agent_initiated, PublishFailureReason, DisconnectReason, superseded, FileChecksum,
  TraefikCheckResult, TraefikProviderEvent, created, renamed, deleted, token_issued, token_revoked,
  snapshot_published, snapshot_publish_failed, agent_connected, agent_disconnected,
  snapshot_applied, snapshot_apply_failed,
}

abbrev pub max_active_tokens : ℕ
max_active_tokens = 2

pub record ProviderTokenState : Type 0 where
  pub token_id : String
  pub hash : String
  pub last4 : String
  pub issued_at : String
  pub revoked_at : Option String

pub data ProviderStatus : Type 0 where
  live removed : ProviderStatus

pub data Presence : Type 0 where
  connected disconnected never : Presence

pub record LastPublished : Type 0 where
  pub version : ℕ
  pub content_hash : String
  pub correlation_id : String
  pub published_at : String

pub record LastPublishError : Type 0 where
  pub reason : PublishFailureReason
  pub correlation_id : String
  pub failed_at : String

pub record LastApplied : Type 0 where
  pub version : ℕ
  pub correlation_id : String
  pub stale : Bool
  pub files : List FileChecksum
  pub templates : List FileChecksum
  pub traefik_check : Option TraefikCheckResult
  pub applied_at : String

pub record LastApplyError : Type 0 where
  pub version : ℕ
  pub correlation_id : String
  pub reason : String
  pub applied_at : String

pub record TraefikProviderState : Type 0 where
  pub provider_id : Option String
  pub account_id : Option String
  pub name : String
  pub connection_mode : ConnectionMode
  pub status : ProviderStatus
  pub tokens : List ProviderTokenState
  pub last_published : Option LastPublished
  pub last_publish_error : Option LastPublishError
  pub last_connected_at : Option String
  pub last_disconnected_at : Option String
  pub last_presence : Presence
  pub agent_version : Option String
  pub max_offline_seconds : Option ℕ
  pub replaced_previous_at : Option String
  pub last_applied : Option LastApplied
  pub last_apply_error : Option LastApplyError

abbrev pub initial_traefik_provider_state : TraefikProviderState
initial_traefik_provider_state = record {
  provider_id = none;
  account_id = none;
  name = "";
  connection_mode = agent_initiated;
  status = live;
  tokens = [];
  last_published = none;
  last_publish_error = none;
  last_connected_at = none;
  last_disconnected_at = none;
  last_presence = never;
  agent_version = none;
  max_offline_seconds = none;
  replaced_previous_at = none;
  last_applied = none;
  last_apply_error = none;
}

unfoldable pub is_active_token : ProviderTokenState → Bool
is_active_token token = not (truthy token.revoked_at)

unfoldable pub active_tokens : TraefikProviderState → List ProviderTokenState
unfolding is_active_token
active_tokens state = filter is_active_token state.tokens

unfoldable pub revoke_token : String → String → ProviderTokenState → ProviderTokenState
revoke_token token_id revoked_at token =
    if token.token_id == token_id && not (truthy token.revoked_at)
    then record token { revoked_at = some revoked_at }
    else token

-- A superseded session ends after its replacement connected: the newer connection stays.
after_disconnect : DisconnectReason → String → TraefikProviderState → TraefikProviderState
after_disconnect superseded at state = record state { last_disconnected_at = some at }
after_disconnect _ at state = record state {
  last_disconnected_at = some at;
  last_presence = disconnected;
}

-- The number is the event's sequence number.
unfoldable pub fold_provider :
    TraefikProviderState → ℕ → TraefikProviderEvent → TraefikProviderState
unfolding revoke_token after_disconnect
fold_provider state n (created d) = record state {
  provider_id = some d.provider_id;
  account_id = some d.account_id;
  name = d.name;
  connection_mode = d.connection_mode;
  status = live;
}
fold_provider state n (renamed d) = record state { name = d.name }
fold_provider state n (deleted _) = record state { status = removed }
fold_provider state n (token_issued d) = record state {
  tokens =
      state.tokens
      ++ record {
        token_id = d.token_id;
        hash = d.token_hash;
        last4 = d.last4;
        issued_at = d.issued_at;
        revoked_at = none;
      }
        ∷ [];
}
fold_provider state n (token_revoked d) = record state {
  tokens = map (revoke_token d.token_id d.revoked_at) state.tokens;
}
fold_provider state n (snapshot_published d) = record state {
  last_published = some (record {
    version = n;
    content_hash = d.content_hash;
    correlation_id = d.correlation_id;
    published_at = d.published_at;
  });
  last_publish_error = none;
}
fold_provider state n (snapshot_publish_failed d) = record state {
  last_publish_error =
      some
        (record { reason = d.reason; correlation_id = d.correlation_id; failed_at = d.failed_at });
}
fold_provider state n (agent_connected d) = record state {
  last_connected_at = some d.connected_at;
  last_presence = connected;
  agent_version = some d.agent_version;
  max_offline_seconds = some d.max_offline_seconds;
  replaced_previous_at =
      if d.replaced_previous then some d.connected_at else state.replaced_previous_at;
}
fold_provider state n (agent_disconnected d) = after_disconnect d.reason d.disconnected_at state
fold_provider state n (snapshot_applied d) = record state {
  agent_version = if nonempty d.agent_version then some d.agent_version else state.agent_version;
  last_applied = some (record {
    version = d.version;
    correlation_id = d.correlation_id;
    stale = d.stale;
    files = d.files;
    templates = d.templates;
    traefik_check = d.traefik_check;
    applied_at = d.applied_at;
  });
  last_apply_error = none;
}
fold_provider state n (snapshot_apply_failed d) = record state {
  last_apply_error = some (record {
    version = d.version;
    correlation_id = d.correlation_id;
    reason = d.reason;
    applied_at = d.applied_at;
  });
}

unfoldable pub fold_provider_payload : TraefikProviderState → ℕ → Payload → TraefikProviderState
unfolding fold_provider
fold_provider_payload state n (of_provider e) = fold_provider state n e
fold_provider_payload state n _ = state

unfoldable pub traefik_provider_reducer : TraefikProviderState → StoredEvent → TraefikProviderState
unfolding fold_provider_payload
traefik_provider_reducer state event =
    fold_provider_payload state event.sequence_number event.payload
