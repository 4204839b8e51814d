-- ===== src/Aggregates/IpClient.antt =====
-- backend/src/domain/ip-client/ip-client-aggregate.ts
use fluxip.Base.{String, Option, none, some, or_else}
use fluxip.Event.{Payload, of_ip_client, StoredEvent}
use fluxip.Event.IpClient.{
  NotificationPreference, off, client_registered, credential_rotated, client_enabled,
  client_disabled, decommissioned, ip_changed, notification_preference_set,
}

pub data IpClientStatus : Type 0 where
  on_duty off_duty retired : IpClientStatus

pub record IpClientState : Type 0 where
  pub ip_client_id : Option String
  pub account_id : Option String
  pub label : String
  pub credential_hash : Option String
  pub status : IpClientStatus
  pub last_known_ipv4 : Option String
  pub last_known_ipv6 : Option String
  pub notification_preference : NotificationPreference

abbrev pub initial_ip_client_state : IpClientState
initial_ip_client_state = record {
  ip_client_id = none;
  account_id = none;
  label = "";
  credential_hash = none;
  status = on_duty;
  last_known_ipv4 = none;
  last_known_ipv6 = none;
  notification_preference = off;
}

-- `ip_report_received` falls to the default branch.
unfoldable pub fold_ip_client : IpClientState → Payload → IpClientState
fold_ip_client state (of_ip_client (client_registered d)) = record state {
  ip_client_id = some d.ip_client_id;
  account_id = some d.account_id;
  label = d.label;
  credential_hash = some d.credential_hash;
  status = on_duty;
}
fold_ip_client state (of_ip_client (credential_rotated d)) = record state {
  credential_hash = some d.credential_hash;
}
fold_ip_client state (of_ip_client (client_enabled _)) = record state { status = on_duty }
fold_ip_client state (of_ip_client (client_disabled _)) = record state { status = off_duty }
fold_ip_client state (of_ip_client (decommissioned _)) = record state { status = retired }
fold_ip_client state (of_ip_client (ip_changed d)) = record state {
  last_known_ipv4 = or_else d.new_ipv4 state.last_known_ipv4;
  last_known_ipv6 = or_else d.new_ipv6 state.last_known_ipv6;
}
fold_ip_client state (of_ip_client (notification_preference_set p)) = record state {
  notification_preference = p;
}
fold_ip_client state _ = state

unfoldable pub ip_client_reducer : IpClientState → StoredEvent → IpClientState
unfolding fold_ip_client
ip_client_reducer state event = fold_ip_client state event.payload
