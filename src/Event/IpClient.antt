-- ===== src/Event/IpClient.antt =====
-- backend/src/domain/ip-client/events.ts
use fluxip.Base.{String, Option}

abbrev pub ip_client_aggregate_type : String
ip_client_aggregate_type = "ip_client"

pub data NotificationPreference : Type 0 where
  off failures_only all_outcomes : NotificationPreference

pub record IpClientRegisteredData : Type 0 where
  pub ip_client_id : String
  pub account_id : String
  pub label : String
  pub credential_hash : String
  pub registered_at : String

pub record IpClientCredentialRotatedData : Type 0 where
  pub credential_hash : String
  pub rotated_at : String

pub record IpClientIpReportReceivedData : Type 0 where
  pub reported_ipv4 : Option String
  pub reported_ipv6 : Option String
  pub received_at : String

pub record IpClientIpChangedData : Type 0 where
  pub previous_ipv4 : Option String
  pub new_ipv4 : Option String
  pub previous_ipv6 : Option String
  pub new_ipv6 : Option String
  pub settled_at : String

pub data IpClientEvent : Type 0 where
  client_registered : IpClientRegisteredData → IpClientEvent
  credential_rotated : IpClientCredentialRotatedData → IpClientEvent
  client_enabled client_disabled : String → IpClientEvent
  decommissioned : String → IpClientEvent
  ip_report_received : IpClientIpReportReceivedData → IpClientEvent
  ip_changed : IpClientIpChangedData → IpClientEvent
  notification_preference_set : NotificationPreference → IpClientEvent

abbrev pub ip_client_event_name : IpClientEvent → String
ip_client_event_name (client_registered _) = "registered"
ip_client_event_name (credential_rotated _) = "credential_rotated"
ip_client_event_name (client_enabled _) = "enabled"
ip_client_event_name (client_disabled _) = "disabled"
ip_client_event_name (decommissioned _) = "decommissioned"
ip_client_event_name (ip_report_received _) = "ip_report_received"
ip_client_event_name (ip_changed _) = "ip_changed"
ip_client_event_name (notification_preference_set _) = "notification_preference_set"
