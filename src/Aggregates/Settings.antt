-- ===== src/Aggregates/Settings.antt =====
-- backend/src/domain/notification-channel/notification-channel-aggregate.ts and
-- backend/src/domain/provider-credential/provider-credential-aggregate.ts
use fluxip.Base.{String, Option, none, some, List, []}
use fluxip.Event.{Payload, of_channel, of_credential, StoredEvent}
use fluxip.Event.Settings.{
  channel_registered, channel_reconfigured, channel_revoked, stored, rotated, revoked,
}

pub data SettingStatus : Type 0 where
  in_use withdrawn : SettingStatus

pub record NotificationChannelState : Type 0 where
  pub channel_id : Option String
  pub account_id : Option String
  pub channel_type : String
  pub addresses : List String
  pub status : SettingStatus

abbrev pub initial_notification_channel_state : NotificationChannelState
initial_notification_channel_state = record {
  channel_id = none;
  account_id = none;
  channel_type = "";
  addresses = [];
  status = in_use;
}

fold_channel : NotificationChannelState → Payload → NotificationChannelState
fold_channel state (of_channel (channel_registered d)) = record state {
  channel_id = some d.channel_id;
  account_id = some d.account_id;
  channel_type = d.channel_type;
  addresses = d.addresses;
  status = in_use;
}
fold_channel state (of_channel (channel_reconfigured d)) = record state { addresses = d.addresses }
fold_channel state (of_channel (channel_revoked _)) = record state { status = withdrawn }
fold_channel state _ = state

unfoldable pub notification_channel_reducer :
    NotificationChannelState → StoredEvent → NotificationChannelState
unfolding fold_channel
notification_channel_reducer state event = fold_channel state event.payload

pub record ProviderCredentialState : Type 0 where
  pub credential_id : Option String
  pub account_id : Option String
  pub provider : String
  pub label : String
  pub encrypted_secret : Option String
  pub secret_last4 : String
  pub status : SettingStatus

abbrev pub initial_provider_credential_state : ProviderCredentialState
initial_provider_credential_state = record {
  credential_id = none;
  account_id = none;
  provider = "";
  label = "";
  encrypted_secret = none;
  secret_last4 = "";
  status = in_use;
}

fold_credential : ProviderCredentialState → Payload → ProviderCredentialState
fold_credential state (of_credential (stored d)) = record state {
  credential_id = some d.credential_id;
  account_id = some d.account_id;
  provider = d.provider;
  label = d.label;
  encrypted_secret = some d.encrypted_secret;
  secret_last4 = d.secret_last4;
  status = in_use;
}
fold_credential state (of_credential (rotated d)) = record state {
  encrypted_secret = some d.encrypted_secret;
}
fold_credential state (of_credential (revoked _)) = record state { status = withdrawn }
fold_credential state _ = state

unfoldable pub provider_credential_reducer :
    ProviderCredentialState → StoredEvent → ProviderCredentialState
unfolding fold_credential
provider_credential_reducer state event = fold_credential state event.payload
