-- ===== src/Actions/Reconfigure.antt =====
-- A new configuration or new families of an action: the handler of `PUT /actions/:id` in
-- backend/src/adapters/http/routes/actions.ts.
use fluxip.Base.{
  nat_eq, String, Bool, true, false, not, ◌||◌, Option, none, some, List, [], ◌++◌, any, filter,
  nonempty, get_or, if◌then◌else◌,
}
use fluxip.Event.{of_action, Result, ok, err, Failure, Stamp}
use fluxip.Event.Action.{
  AddressFamily, ActionConfig, dns, firewall, traefik, reconfigured, has_provider_credential,
}
use fluxip.EventStore.{Table, Loaded}
use fluxip.Aggregates.Action.{ActionState}
use fluxip.Executions.Resolve.{is_firewall, is_family}
use fluxip.Actions.{ActionsDeps, ActionsWorld, ActionReply, refused, of_action_id}
use fluxip.Actions.Checks.{
  ConfigCheck, accepted, rejected, check_thrown, check_delivery, validate_delivery_config,
  load_owned_active_credential, validate_firewall_selector,
}
use fluxip.Actions.Routes.{
  load_action, refresh_action, target_of, schedule_delivery, cleanup_firewall_entries, store_action,
  is_delivery,
}
use fluxip.Actions.Changes.{load_owned_action}

-- The configuration of a change: one that is accepted, none in the body, a refusal, or the error
-- that was thrown.
pub data Change : Type 0 where
  change_to : Option ActionConfig → Change
  no_change : ActionReply → Change
  change_thrown : Failure → Change

of_check : ConfigCheck → Change
of_check (accepted config) = change_to (some config)
of_check (rejected reply) = no_change reply
of_check (check_thrown f) = change_thrown f

of_refusal : ActionConfig → Option ActionReply → Change
of_refusal config none = change_to (some config)
of_refusal config (some reply) = no_change reply

with_selector : ActionsDeps → ActionConfig → String → Change
unfolding of_refusal
with_selector deps (firewall config) token =
    let checked = of_refusal (firewall config) (validate_firewall_selector deps token config) in
    if nat_eq config.firewall_id 0 || not (nonempty config.description)
    then no_change
        (refused 400 "config.firewallId, direction, protocol, and description are required")
    else checked
with_selector deps config token =
    no_change (refused 400 "config.firewallId, direction, protocol, and description are required")

with_token : ActionsDeps → Option String → ActionConfig → Result (Option String) → Change
unfolding with_selector
with_token deps action_type config (err f) = change_thrown f
with_token deps action_type config (ok none) =
    no_change (refused 400 "invalid providerCredentialId")
with_token deps action_type config (ok (some token)) =
    let checked = with_selector deps config token in
    if is_firewall action_type then checked else change_to (some config)

credential_of : ActionConfig → String
credential_of (dns config) = config.provider_credential_id
credential_of (firewall config) = config.provider_credential_id
credential_of (traefik config) = ""

unfoldable pub change_of : ActionsDeps → String → ActionState → Option ActionConfig → Table → Change
unfolding of_check with_token credential_of check_delivery validate_delivery_config
change_of deps action_id state none table = change_to none
change_of deps action_id state (some config) table =
    if is_delivery state.action_type
    then of_check (
        check_delivery (
          validate_delivery_config deps (get_or state.ip_client_id "") (some config)
            (some action_id) table))
    else if not (has_provider_credential (some config))
    then no_change (refused 400 "invalid providerCredentialId")
    else with_token deps state.action_type config
        (load_owned_active_credential deps (credential_of config) table)

dropped_families : List AddressFamily → List AddressFamily → List AddressFamily
dropped_families before after = filter (λ family. not (any (is_family family) after)) before

follow_families :
    ActionsDeps
    → ActionState
    → Option (List AddressFamily)
    → ActionsWorld
    → Result {0} Unit × ActionsWorld
unfolding dropped_families cleanup_firewall_entries
follow_families deps before none w = (ok tt, w)
follow_families deps before (some families) w =
    if is_firewall before.action_type
    then cleanup_firewall_entries deps before (dropped_families before.address_families families) w
    else (ok tt, w)

-- After `reconfigured`: both targets, and the entries of the families that the action gives up.
follow_reconfigure :
    ActionsDeps
    → String
    → ActionState
    → Option (List AddressFamily)
    → ActionsWorld
    → Result {0} Unit × ActionsWorld
unfolding refresh_action schedule_delivery target_of follow_families
follow_reconfigure deps action_id before families w = follow_families deps before families (
    schedule_delivery deps
      (target_of before ++ target_of (load_action deps.account_id action_id w.table).state)
      (refresh_action deps action_id w))

unfoldable pub reconfigure_with :
    ActionsDeps
    → String
    → Option (List AddressFamily)
    → String
    → Stamp
    → ActionsWorld
    → Loaded ActionState
    → Change
    → Result ActionReply × ActionsWorld
unfolding store_action follow_reconfigure
reconfigure_with deps action_id families now stamp w owned (no_change reply) = (ok reply, w)
reconfigure_with deps action_id families now stamp w owned (change_thrown f) = (err f, w)
reconfigure_with deps action_id families now stamp w owned (change_to config) =
    store_action deps action_id owned.version
      (of_action (
        reconfigured (record {
          address_families = if is_delivery owned.state.action_type then none else families;
          config = config;
          reconfigured_at = now;
        })))
      stamp (of_action_id action_id) (follow_reconfigure deps action_id owned.state families) w

empty_families : Option (List AddressFamily) → Bool
empty_families (some []) = true
empty_families _ = false

reconfigure_owned :
    ActionsDeps
    → String
    → Option (List AddressFamily)
    → Option ActionConfig
    → String
    → Stamp
    → ActionsWorld
    → Option (Loaded ActionState)
    → Result ActionReply × ActionsWorld
unfolding reconfigure_with change_of empty_families
reconfigure_owned deps action_id families config now stamp w none =
    (ok (refused 404 "not found"), w)
reconfigure_owned deps action_id families config now stamp w (some owned) =
    let changed =
      reconfigure_with deps action_id families now stamp w owned
        (change_of deps action_id owned.state config w.table) in
    if empty_families families
    then (ok (refused 400 "addressFamilies, if provided, must be a non-empty array"), w)
    else changed

unfoldable pub reconfigure_action :
    ActionsDeps
    → String
    → Option (List AddressFamily)
    → Option ActionConfig
    → String
    → Stamp
    → ActionsWorld
    → Result ActionReply × ActionsWorld
unfolding reconfigure_owned load_owned_action
reconfigure_action deps action_id families config now stamp w =
    reconfigure_owned deps action_id families config now stamp w
      (load_owned_action deps action_id w.table)
