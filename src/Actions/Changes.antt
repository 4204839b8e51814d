-- ===== src/Actions/Changes.antt =====
-- Changes of an attached action: handlers of backend/src/adapters/http/routes/actions.ts.
use fluxip.Base.{
  String, not, ◌||◌, Option, none, some, [], ◌∷◌, truthy, opt_eq, ◌==◌, if◌then◌else◌,
}
use fluxip.Event.{of_action, Result, ok, Stamp}
use fluxip.Event.Action.{ipv4, ipv6, enabled, disabled, detached}
use fluxip.EventStore.{Table, Loaded}
use fluxip.Aggregates.Action.{ActionState, is_enabled, is_disabled, is_detached}
use fluxip.Devices.Delivery.{detached_status}
use fluxip.Executions.Resolve.{is_firewall}
use fluxip.Actions.{
  ActionsDeps, ActionsWorld, ActionReply, refused, with_status, items, list_actions_projection,
}
use fluxip.Actions.Routes.{
  load_action, refresh_action, target_of, schedule_delivery, cleanup_firewall_entries, store_action,
  silently,
}

unfoldable pub load_owned_action : ActionsDeps → String → Table → Option (Loaded ActionState)
unfolding load_action
load_owned_action deps action_id table =
    let loaded = load_action deps.account_id action_id table in
    if not (truthy loaded.state.action_id)
      || not (opt_eq loaded.state.account_id (some deps.account_id))
    then none
    else some loaded

-- After an event that leaves the target: the projection, and the action's provider as it was loaded.
unfoldable pub follow_change : ActionsDeps → String → ActionState → ActionsWorld → ActionsWorld
unfolding refresh_action schedule_delivery target_of
follow_change deps action_id before w =
    schedule_delivery deps (target_of before) (refresh_action deps action_id w)

enable_owned :
    ActionsDeps
    → String
    → Stamp
    → ActionsWorld
    → Option (Loaded ActionState)
    → Result ActionReply × ActionsWorld
unfolding store_action follow_change
enable_owned deps action_id stamp w none = (ok (refused 404 "not found"), w)
enable_owned deps action_id stamp w (some owned) =
    let done =
      store_action deps action_id owned.version (of_action (enabled action_id)) stamp
        (with_status action_id is_enabled) (silently (follow_change deps action_id owned.state))
        w in
    if detached_status owned.state.status
    then (ok (refused 409 "cannot enable a detached Action"), w)
    else done

unfoldable pub enable_action :
    ActionsDeps → String → Stamp → ActionsWorld → Result ActionReply × ActionsWorld
unfolding enable_owned load_owned_action
enable_action deps action_id stamp w =
    enable_owned deps action_id stamp w (load_owned_action deps action_id w.table)

disable_owned :
    ActionsDeps
    → String
    → Stamp
    → ActionsWorld
    → Option (Loaded ActionState)
    → Result ActionReply × ActionsWorld
unfolding store_action follow_change
disable_owned deps action_id stamp w none = (ok (refused 404 "not found"), w)
disable_owned deps action_id stamp w (some owned) =
    let done =
      store_action deps action_id owned.version (of_action (disabled action_id)) stamp
        (with_status action_id is_disabled) (silently (follow_change deps action_id owned.state))
        w in
    if detached_status owned.state.status
    then (ok (refused 409 "cannot disable a detached Action"), w)
    else done

unfoldable pub disable_action :
    ActionsDeps → String → Stamp → ActionsWorld → Result ActionReply × ActionsWorld
unfolding disable_owned load_owned_action
disable_action deps action_id stamp w =
    disable_owned deps action_id stamp w (load_owned_action deps action_id w.table)

-- After `detached`: also the removal of what the action owns in a firewall.
follow_detach : ActionsDeps → String → ActionState → ActionsWorld → Result {0} Unit × ActionsWorld
unfolding follow_change cleanup_firewall_entries
follow_detach deps action_id before w =
    let followed = follow_change deps action_id before w in
    if is_firewall before.action_type
    then cleanup_firewall_entries deps before (ipv4 ∷ ipv6 ∷ []) followed
    else (ok tt, followed)

unfoldable pub detach_owned :
    ActionsDeps
    → String
    → String
    → Stamp
    → ActionsWorld
    → Option (Loaded ActionState)
    → Result ActionReply × ActionsWorld
unfolding store_action follow_detach
detach_owned deps action_id now stamp w none = (ok (refused 404 "not found"), w)
detach_owned deps action_id now stamp w (some owned) =
    let done =
      store_action deps action_id owned.version (of_action (detached now)) stamp
        (with_status action_id is_detached) (follow_detach deps action_id owned.state) w in
    if detached_status owned.state.status then (ok (with_status action_id is_detached), w) else done

unfoldable pub detach_action :
    ActionsDeps → String → String → Stamp → ActionsWorld → Result ActionReply × ActionsWorld
unfolding detach_owned load_owned_action
detach_action deps action_id now stamp w =
    detach_owned deps action_id now stamp w (load_owned_action deps action_id w.table)

unfoldable pub list_actions :
    ActionsDeps → String → ActionsWorld → Result ActionReply × ActionsWorld
list_actions deps ip_client_id w =
    let hash =
      list_actions_projection deps.account_id ip_client_id w.table (w.hashes ip_client_id) in
    (ok (items hash), record w { hashes = λ id. if id == ip_client_id then hash else w.hashes id })
