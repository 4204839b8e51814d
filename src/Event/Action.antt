-- ===== src/Event/Action.antt =====
-- backend/src/domain/action/events.ts
use fluxip.Base.{ℕ, String, Option, List, Bool, true, false, some, none}

abbrev pub action_aggregate_type : String
action_aggregate_type = "action"

pub data AddressFamily : Type 0 where
  ipv4 ipv6 : AddressFamily

abbrev pub hetzner_cloud_dns_update_action_type : String
hetzner_cloud_dns_update_action_type = "hetzner_cloud_dns_update"

abbrev pub hetzner_cloud_firewall_rule_update_action_type : String
hetzner_cloud_firewall_rule_update_action_type = "hetzner_cloud_firewall_rule_update"

abbrev pub traefik_config_delivery_action_type : String
traefik_config_delivery_action_type = "traefik_config_delivery"

pub record UpdateDnsRecordConfig : Type 0 where
  pub provider_credential_id : String
  pub zone : String
  pub record_name : String

pub data Direction : Type 0 where
  inbound outbound : Direction

pub data Protocol : Type 0 where
  tcp udp icmp esp ah gre : Protocol

pub record UpdateFirewallRuleConfig : Type 0 where
  pub provider_credential_id : String
  pub firewall_id : ℕ
  pub direction : Direction
  pub protocol : Protocol
  pub port : Option String
  pub description : String

pub record TraefikConfigDeliveryConfig : Type 0 where
  pub traefik_provider_id : String
  pub group : String

-- The union of the three configurations, told apart by the fields that they have.
pub data ActionConfig : Type 0 where
  dns : UpdateDnsRecordConfig → ActionConfig
  firewall : UpdateFirewallRuleConfig → ActionConfig
  traefik : TraefikConfigDeliveryConfig → ActionConfig

pub has_provider_credential : Option ActionConfig → Bool
has_provider_credential none = false
has_provider_credential (some (dns _)) = true
has_provider_credential (some (firewall _)) = true
has_provider_credential (some (traefik _)) = false

pub record ActionAttachedData : Type 0 where
  pub action_id : String
  pub account_id : String
  pub ip_client_id : String
  pub action_type : String
  pub address_families : List AddressFamily
  pub config : ActionConfig
  pub attached_at : String

pub record ActionReconfiguredData : Type 0 where
  pub address_families : Option (List AddressFamily)
  pub config : Option ActionConfig
  pub reconfigured_at : String

-- One value for each address family, or none: `{ ipv4?: string; ipv6?: string }`.
pub record IpValues : Type 0 where
  pub v4 : Option String
  pub v6 : Option String

pub record ActionFirewallRuleAppliedData : Type 0 where
  pub action_id : String
  pub applied : IpValues
  pub applied_at : String

pub data ActionEvent : Type 0 where
  attached : ActionAttachedData → ActionEvent
  reconfigured : ActionReconfiguredData → ActionEvent
  enabled disabled : String → ActionEvent
  detached : String → ActionEvent
  firewall_rule_applied : ActionFirewallRuleAppliedData → ActionEvent

abbrev pub action_event_name : ActionEvent → String
action_event_name (attached _) = "attached"
action_event_name (reconfigured _) = "reconfigured"
action_event_name (enabled _) = "enabled"
action_event_name (disabled _) = "disabled"
action_event_name (detached _) = "detached"
action_event_name (firewall_rule_applied _) = "firewall_rule_applied"
