-- ===== src/Aggregates/Action.antt =====
-- backend/src/domain/action/action-aggregate.ts
use fluxip.Base.{String, Option, none, some, List, [], or_else, get_or}
use fluxip.Event.{Payload, of_action, StoredEvent}
use fluxip.Event.Action.{
  AddressFamily, ActionConfig, IpValues, attached, reconfigured, enabled, disabled, detached,
  firewall_rule_applied,
}

pub data ActionStatus : Type 0 where
  is_enabled is_disabled is_detached : ActionStatus

pub record ActionState : Type 0 where
  pub action_id : Option String
  pub account_id : Option String
  pub ip_client_id : Option String
  pub action_type : Option String
  pub address_families : List AddressFamily
  pub config : Option ActionConfig
  pub status : ActionStatus
  pub firewall_owned_entries : IpValues

abbrev pub initial_action_state : ActionState
initial_action_state = record {
  action_id = none;
  account_id = none;
  ip_client_id = none;
  action_type = none;
  address_families = [];
  config = none;
  status = is_enabled;
  firewall_owned_entries = record { v4 = none; v6 = none };
}

unfoldable pub fold_action : ActionState → Payload → ActionState
fold_action state (of_action (attached d)) = record state {
  action_id = some d.action_id;
  account_id = some d.account_id;
  ip_client_id = some d.ip_client_id;
  action_type = some d.action_type;
  address_families = d.address_families;
  config = some d.config;
  status = is_enabled;
}
fold_action state (of_action (reconfigured d)) = record state {
  address_families = get_or d.address_families state.address_families;
  config = or_else d.config state.config;
}
fold_action state (of_action (enabled _)) = record state { status = is_enabled }
fold_action state (of_action (disabled _)) = record state { status = is_disabled }
fold_action state (of_action (detached _)) = record state { status = is_detached }
fold_action state (of_action (firewall_rule_applied d)) = record state {
  firewall_owned_entries = record {
    v4 = or_else d.applied.v4 state.firewall_owned_entries.v4;
    v6 = or_else d.applied.v6 state.firewall_owned_entries.v6;
  };
}
fold_action state _ = state

unfoldable pub action_reducer : ActionState → StoredEvent → ActionState
unfolding fold_action
action_reducer state event = fold_action state event.payload
