-- ===== src/Event/Settings.antt =====
-- backend/src/domain/notification-channel/events.ts and
-- backend/src/domain/provider-credential/events.ts
use fluxip.Base.{String, List}

abbrev pub notification_channel_aggregate_type : String
notification_channel_aggregate_type = "notification_channel"

pub record NotificationChannelRegisteredData : Type 0 where
  pub channel_id : String
  pub account_id : String
  pub channel_type : String
  pub addresses : List String
  pub registered_at : String

pub record NotificationChannelReconfiguredData : Type 0 where
  pub addresses : List String
  pub reconfigured_at : String

pub data NotificationChannelEvent : Type 0 where
  channel_registered : NotificationChannelRegisteredData → NotificationChannelEvent
  channel_reconfigured : NotificationChannelReconfiguredData → NotificationChannelEvent
  channel_revoked : String → NotificationChannelEvent

abbrev pub notification_channel_event_name : NotificationChannelEvent → String
notification_channel_event_name (channel_registered _) = "registered"
notification_channel_event_name (channel_reconfigured _) = "reconfigured"
notification_channel_event_name (channel_revoked _) = "revoked"

abbrev pub provider_credential_aggregate_type : String
provider_credential_aggregate_type = "provider_credential"

pub record ProviderCredentialStoredData : Type 0 where
  pub credential_id : String
  pub account_id : String
  pub provider : String
  pub label : String
  pub encrypted_secret : String
  pub secret_last4 : String
  pub stored_at : String

pub record ProviderCredentialRotatedData : Type 0 where
  pub encrypted_secret : String
  pub rotated_at : String

pub data ProviderCredentialEvent : Type 0 where
  stored : ProviderCredentialStoredData → ProviderCredentialEvent
  rotated : ProviderCredentialRotatedData → ProviderCredentialEvent
  revoked : String → ProviderCredentialEvent

abbrev pub provider_credential_event_name : ProviderCredentialEvent → String
provider_credential_event_name (stored _) = "stored"
provider_credential_event_name (rotated _) = "rotated"
provider_credential_event_name (revoked _) = "revoked"
