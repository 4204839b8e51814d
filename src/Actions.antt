-- ===== src/Actions.antt =====
-- The actions of one account, signed in as `account_id`: backend/src/projections/actions-projection.ts
-- and what backend/src/adapters/http/routes/actions.ts works on. The Hetzner API, the decryption of a
-- secret, `trim` and the pattern of a group are arguments; the calls of the scheduler and the removals
-- of firewall entries are recorded, newest first. A secret that cannot be decrypted is an error.
pub mod Checks
pub mod Routes
pub mod Changes
pub mod Reconfigure
pub mod Listed
pub mod Attach
use fluxip.Base.{
  ℕ, String, Bool, true, false, not, ◌||◌, Option, none, some, List, [], ◌∷◌, Map, put, remove,
  truthy, opt_eq, if◌then◌else◌,
}
use fluxip.Event.{CloudEventsConfig, Result}
use fluxip.Event.Action.{AddressFamily, ActionConfig, IpValues, UpdateFirewallRuleConfig}
use fluxip.EventStore.{Table}
use fluxip.Aggregates.Action.{ActionState, ActionStatus}
use fluxip.Devices.Delivery.{action_state, action_ids, detached_status}
use fluxip.Firewall.{HetznerFirewallRule, HetznerFirewallResolvedConfig}

pub record ActionSummary : Type 0 where
  pub action_id : String
  pub ip_client_id : String
  pub action_type : String
  pub address_families : List AddressFamily
  pub config : Option ActionConfig
  pub status : ActionStatus

action_summary_of :
    ActionState → Option String → Option String → Option String → Option ActionSummary
action_summary_of state (some action_id) (some ip_client_id) (some action_type) =
    if not (truthy (some action_id))
      || not (truthy (some ip_client_id))
      || not (truthy (some action_type))
    then none
    else some (record {
      action_id = action_id;
      ip_client_id = ip_client_id;
      action_type = action_type;
      address_families = state.address_families;
      config = state.config;
      status = state.status;
    })
action_summary_of state _ _ _ = none

unfoldable pub action_summary : ActionState → Option ActionSummary
unfolding action_summary_of
action_summary state = action_summary_of state state.action_id state.ip_client_id state.action_type

upsert_action : Option ActionSummary → Map ActionSummary → Map ActionSummary
upsert_action none hash = hash
upsert_action (some summary) hash =
    if detached_status summary.status
    then remove summary.action_id hash
    else put summary.action_id summary hash

-- The hashes by the device; the one of the summary's device changes.
unfoldable pub upsert_action_projection :
    ActionState → (String → Map ActionSummary) → String → Map ActionSummary
unfolding upsert_action action_summary
upsert_action_projection state hashes ip_client_id =
    if opt_eq state.ip_client_id (some ip_client_id)
    then upsert_action (action_summary state) (hashes ip_client_id)
    else hashes ip_client_id

rebuild_action : String → ActionState → Option ActionSummary → Map ActionSummary → Map ActionSummary
rebuild_action ip_client_id state none hash = hash
rebuild_action ip_client_id state (some summary) hash =
    if not (opt_eq state.ip_client_id (some ip_client_id)) || detached_status summary.status
    then hash
    else put summary.action_id summary hash

rebuild_actions : String → String → Table → List String → Map ActionSummary → Map ActionSummary
unfolding rebuild_action action_summary
rebuild_actions account_id ip_client_id table [] hash = hash
rebuild_actions account_id ip_client_id table (id ∷ ids) hash =
    let state = action_state table account_id id in
    rebuild_actions account_id ip_client_id table ids
      (rebuild_action ip_client_id state (action_summary state) hash)

unfoldable pub rebuild_actions_projection : String → String → Table → Map ActionSummary
unfolding rebuild_actions
rebuild_actions_projection account_id ip_client_id table =
    rebuild_actions account_id ip_client_id table (action_ids account_id table) []

any_entry : Map ActionSummary → Bool
any_entry [] = false
any_entry (_ ∷ _) = true

unfoldable pub list_actions_projection :
    String → String → Table → Map ActionSummary → Map ActionSummary
unfolding rebuild_actions_projection any_entry
list_actions_projection account_id ip_client_id table hash =
    if any_entry hash then hash else rebuild_actions_projection account_id ip_client_id table

pub record ActionsDeps : Type 0 where
  pub config : CloudEventsConfig
  pub account_id : String
  pub has_providers : Bool
  pub has_snapshots : Bool
  pub trim : String → String
  pub group_pattern : String → Bool
  pub decrypt : String → Result String
  pub get_firewall : String → ℕ → Option (List HetznerFirewallRule)

-- A best-effort removal of the entries in the rule that the configuration selects.
pub record Cleanup : Type 0 where
  pub api_token : String
  pub config : UpdateFirewallRuleConfig
  pub remove : IpValues

pub record ActionsWorld : Type 0 where
  pub table : Table
  pub hashes : String → Map ActionSummary
  pub scheduled : List (List String)
  pub cleaned : List Cleanup

pub data ActionReply : Type 0 where
  refused : ℕ → String → ActionReply
  attached_as : String → ActionReply
  of_action_id : String → ActionReply
  with_status : String → ActionStatus → ActionReply
  items : Map ActionSummary → ActionReply
