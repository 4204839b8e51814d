-- ===== src/Actions/Routes.antt =====
-- The handlers of backend/src/adapters/http/routes/actions.ts.
use fluxip.Base.{
  ℕ, String, Bool, true, false, not, ◌||◌, ◌&&◌, Option, none, some, List, [], ◌∷◌, any, nonempty,
  opt_eq, get_or, distinct, if◌then◌else◌, is_some,
}
use fluxip.Event.{Payload, of_action, StoredEvent, ReadStreamParams, Result, ok, err, Stamp}
use fluxip.Event.Action.{
  AddressFamily, ipv4, ipv6, ActionConfig, firewall, traefik, IpValues, UpdateFirewallRuleConfig,
  attached, action_aggregate_type, traefik_config_delivery_action_type,
  hetzner_cloud_dns_update_action_type,
}
use fluxip.EventStore.{Table, Loaded, load_aggregate}
use fluxip.EventStore.Commands.{append_next}
use fluxip.Aggregates.Action.{ActionState, initial_action_state, action_reducer}
use fluxip.Aggregates.IpClient.{IpClientState}
use fluxip.Devices.Delivery.{action_state}
use fluxip.IpClients.{is_retired}
use fluxip.IpClients.World.{load_owned_ip_client}
use fluxip.Executions.Resolve.{is_firewall, is_family}
use fluxip.Actions.{
  ActionsDeps, ActionsWorld, ActionReply, refused, attached_as, upsert_action_projection,
}
use fluxip.Actions.Checks.{
  ConfigCheck, accepted, rejected, check_thrown, check_delivery, check_dns, check_firewall,
  validate_delivery_config, load_owned_active_credential,
}

abbrev pub action_stream : String → String → ReadStreamParams
action_stream account_id action_id = record {
  account_id = account_id;
  aggregate_type = action_aggregate_type;
  aggregate_id = action_id;
}

unfoldable pub load_action : String → String → Table → Loaded ActionState
load_action account_id action_id table =
    load_aggregate table (action_stream account_id action_id) initial_action_state action_reducer

unfoldable pub refresh_action : ActionsDeps → String → ActionsWorld → ActionsWorld
unfolding load_action
refresh_action deps action_id w = record w {
  hashes = upsert_action_projection (load_action deps.account_id action_id w.table).state w.hashes;
}

target_in : Option ActionConfig → List String
target_in (some (traefik config)) = config.traefik_provider_id ∷ []
target_in _ = []

unfoldable pub target_of : ActionState → List String
unfolding target_in
target_of state =
    if opt_eq state.action_type (some traefik_config_delivery_action_type)
    then target_in state.config
    else []

unfoldable pub schedule_ids : List String → ActionsWorld → ActionsWorld
schedule_ids [] w = w
schedule_ids (id ∷ ids) w = record w { scheduled = (id ∷ ids) ∷ w.scheduled }

-- The providers whose snapshot the states of an action affect, each once.
unfoldable pub schedule_delivery : ActionsDeps → List String → ActionsWorld → ActionsWorld
unfolding schedule_ids
schedule_delivery deps targets w =
    if not deps.has_snapshots then w else schedule_ids (distinct targets) w

owned_if : List AddressFamily → AddressFamily → Option String → Option String
owned_if families family none = none
owned_if families family (some entry) =
    if any (is_family family) families && nonempty entry then some entry else none

record_cleanup :
    IpValues
    → UpdateFirewallRuleConfig
    → Result (Option String)
    → ActionsWorld
    → Result {0} Unit × ActionsWorld
record_cleanup entries config (err f) w = (err f, w)
record_cleanup entries config (ok none) w = (ok tt, w)
record_cleanup entries config (ok (some token)) w = (
  ok tt,
  record w {
    cleaned = record { api_token = token; config = config; remove = entries } ∷ w.cleaned;
  },
)

cleanup_with :
    ActionsDeps → IpValues → Option ActionConfig → ActionsWorld → Result {0} Unit × ActionsWorld
unfolding record_cleanup
cleanup_with deps entries (some (firewall config)) w =
    record_cleanup entries config
      (load_owned_active_credential deps config.provider_credential_id w.table) w
cleanup_with deps entries _ w = (ok tt, w)

-- The removal of the entries that the action owns, of the given families, where it owns some. The
-- credential is decrypted before the `try`: an error of that is thrown.
unfoldable pub cleanup_firewall_entries :
    ActionsDeps → ActionState → List AddressFamily → ActionsWorld → Result {0} Unit × ActionsWorld
unfolding cleanup_with owned_if
cleanup_firewall_entries deps state families w =
    let entries : IpValues = record {
      v4 = owned_if families ipv4 state.firewall_owned_entries.v4;
      v6 = owned_if families ipv6 state.firewall_owned_entries.v6;
    } in
    let cleaned = cleanup_with deps entries state.config w in
    if is_some entries.v4 || is_some entries.v6 then cleaned else (ok tt, w)

-- Steps that throw no error.
abbrev pub silently : (ActionsWorld → ActionsWorld) → ActionsWorld → Result {0} Unit × ActionsWorld
silently follow w = (ok tt, follow w)

answer : ActionReply → Result {0} Unit × ActionsWorld → Result ActionReply × ActionsWorld
answer reply (err f, w) = (err f, w)
answer reply (ok _, w) = (ok reply, w)

unfoldable pub after_stored :
    ActionReply
    → (ActionsWorld → Result {0} Unit × ActionsWorld)
    → ActionsWorld
    → Result StoredEvent × Table
    → Result ActionReply × ActionsWorld
unfolding answer
after_stored reply follow w (err f, table) = (err f, record w { table = table })
after_stored reply follow w (ok _, table) = answer reply (follow (record w { table = table }))

unfoldable pub store_action :
    ActionsDeps
    → String
    → ℕ
    → Payload
    → Stamp
    → ActionReply
    → (ActionsWorld → Result {0} Unit × ActionsWorld)
    → ActionsWorld
    → Result ActionReply × ActionsWorld
unfolding after_stored
store_action deps action_id version payload stamp reply follow w = after_stored reply follow w (
    append_next deps.config (action_stream deps.account_id action_id) version payload stamp w.table)

pub record AttachBody : Type 0 where
  pub action_type : Option String
  pub address_families : Option (List AddressFamily)
  pub config : Option ActionConfig

abbrev pub is_delivery : Option String → Bool
is_delivery action_type = opt_eq action_type (some traefik_config_delivery_action_type)

abbrev pub is_dns : Option String → Bool
is_dns action_type = opt_eq action_type (some hetzner_cloud_dns_update_action_type)

unfoldable pub device_is_gone : Option (Loaded IpClientState) → Bool
device_is_gone none = true
device_is_gone (some owned) = is_retired owned.state.status

unfoldable pub check_config : ActionsDeps → String → AttachBody → Table → ConfigCheck
unfolding check_delivery check_dns check_firewall validate_delivery_config device_is_gone
check_config deps ip_client_id body table =
    if is_delivery body.action_type
    then if device_is_gone (load_owned_ip_client deps.account_id ip_client_id table)
      then rejected (refused 404 "not found")
      else check_delivery (validate_delivery_config deps ip_client_id body.config none table)
    else if is_dns body.action_type
    then check_dns deps body.config table
    else check_firewall deps body.config table

abbrev pub attached_event :
    ActionsDeps → String → String → String → List AddressFamily → ActionConfig → String → Payload
attached_event deps ip_client_id action_id action_type families config now = of_action (
    attached (record {
      action_id = action_id;
      account_id = deps.account_id;
      ip_client_id = ip_client_id;
      action_type = action_type;
      address_families = families;
      config = config;
      attached_at = now;
    }))

unfoldable pub follow_attach : ActionsDeps → String → ActionsWorld → ActionsWorld
unfolding refresh_action schedule_delivery target_of
follow_attach deps action_id w =
    schedule_delivery deps (target_of (action_state w.table deps.account_id action_id))
      (refresh_action deps action_id w)

unfoldable pub attach_checked :
    ActionsDeps
    → String
    → String
    → String
    → List AddressFamily
    → String
    → Stamp
    → ActionsWorld
    → ConfigCheck
    → Result ActionReply × ActionsWorld
unfolding store_action follow_attach
attach_checked deps ip_client_id action_id action_type families now stamp w (rejected reply) =
    (ok reply, w)
attach_checked deps ip_client_id action_id action_type families now stamp w (check_thrown f) =
    (err f, w)
attach_checked deps ip_client_id action_id action_type families now stamp w (accepted config) =
    store_action deps action_id 0
      (attached_event deps ip_client_id action_id action_type families config now) stamp
      (attached_as action_id) (silently (follow_attach deps action_id)) w

unfoldable pub no_family : List AddressFamily → Bool
no_family [] = true
no_family (_ ∷ _) = false

unfoldable pub attached_families : AttachBody → List AddressFamily
attached_families body =
    if is_delivery body.action_type then ipv4 ∷ ipv6 ∷ [] else get_or body.address_families []

unfoldable pub attach_action :
    ActionsDeps
    → String
    → AttachBody
    → String
    → String
    → Stamp
    → ActionsWorld
    → Result ActionReply × ActionsWorld
unfolding attach_checked check_config no_family attached_families
attach_action deps ip_client_id body action_id now stamp w =
    let families = attached_families body in
    let checked =
      attach_checked deps ip_client_id action_id (get_or body.action_type "") families now stamp w
        (check_config deps ip_client_id body w.table) in
    if not (is_dns body.action_type)
      && not (is_firewall body.action_type)
      && not (is_delivery body.action_type)
    then (ok (refused 400 "unsupported action type"), w)
    else if no_family families
    then (ok (refused 400 "addressFamilies must be a non-empty array of \"ipv4\"/\"ipv6\""), w)
    else checked
