-- ===== src/IpClients/World.antt =====
-- What the routes of backend/src/adapters/http/routes/ip-clients.ts work on, the requests and the
-- replies, and the functions that the handlers share.
use fluxip.Base.{
  ℕ, suc, String, Bool, not, ◌||◌, Option, none, some, List, [], ◌∷◌, truthy, opt_eq, if◌then◌else◌,
  Map,
}
use fluxip.Event.{CloudEventsConfig, Stamp}
use fluxip.Event.IpClient.{NotificationPreference}
use fluxip.EventStore.{Table, Loaded}
use fluxip.Aggregates.IpClient.{IpClientState, IpClientStatus}
use fluxip.Devices.Delivery.{providers_of_device}
use fluxip.Devices.Settle.{load_client}
use fluxip.IpClients.{IpClientSummary, is_retired, upsert_ip_client_projection, ip_client_ids}

pub record RouteDeps : Type 0 where
  pub config : CloudEventsConfig
  pub account_id : String
  pub has_snapshots : Bool
  pub trim : String → String

-- The store, the account's hash in Redis, and the calls of the snapshot scheduler, newest first.
pub record World : Type 0 where
  pub table : Table
  pub hash : Map IpClientSummary
  pub scheduled : List (List String)

-- `generateCredential` with the time at which the event's data is built.
pub record Draw : Type 0 where
  pub secret : String
  pub credential_hash : String
  pub now : String

pub data Request : Type 0 where
  register_client : Option String → String → Draw → Stamp → Request
  list_clients : Request
  get_client : String → Request
  enable_client disable_client : String → Stamp → Request
  rotate_credential : String → Draw → Stamp → Request
  set_preference : String → Option NotificationPreference → Stamp → Request
  decommission_client : String → String → Stamp → Request

pub data Reply : Type 0 where
  refused : ℕ → String → Reply
  limit_reached : ℕ → Reply
  with_credential : String → Option String → String → Reply
  items : Map IpClientSummary → Reply
  one_client : IpClientState → Reply
  with_status : String → IpClientStatus → Reply
  with_preference : String → NotificationPreference → Reply

unfoldable pub count_in : String → Table → List String → ℕ
count_in account_id table [] = 0
count_in account_id table (id ∷ ids) =
    let rest = count_in account_id table ids in
    if is_retired (load_client account_id id table).state.status then rest else suc rest

unfoldable pub count_active_ip_clients : String → Table → ℕ
unfolding count_in
count_active_ip_clients account_id table =
    count_in account_id table (ip_client_ids account_id table)

unfoldable pub refresh_projection : String → String → World → World
refresh_projection account_id id w = record w {
  hash = upsert_ip_client_projection (load_client account_id id w.table).state w.hash;
}

unfoldable pub schedule_some : List String → World → World
schedule_some [] w = w
schedule_some (id ∷ ids) w = record w { scheduled = (id ∷ ids) ∷ w.scheduled }

unfoldable pub schedule_device_providers : RouteDeps → String → World → World
unfolding schedule_some
schedule_device_providers deps id w =
    if not deps.has_snapshots
    then w
    else schedule_some (providers_of_device deps.account_id id w.table) w

unfoldable pub load_owned_ip_client : String → String → Table → Option (Loaded IpClientState)
load_owned_ip_client account_id id table =
    let loaded = load_client account_id id table in
    if not (truthy loaded.state.ip_client_id)
      || not (opt_eq loaded.state.account_id (some account_id))
    then none
    else some loaded
