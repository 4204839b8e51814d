-- ===== src/IpClients.antt =====
-- The devices of one account: their projection (backend/src/projections/ip-clients-projection.ts)
-- and what the routes work on. The hash `proj:…:ip_clients` of the account is a map from ids to
-- summaries; the JSON text of a summary stands for it. An absent hash is the empty one, as in Redis.
pub mod Rebuild
pub mod World
pub mod Routes
pub mod Follow
pub mod Writes
pub mod Sync
pub mod Requests
pub mod Ownership
pub mod Register
use fluxip.Base.{
  String, Bool, true, false, Option, none, some, List, [], ◌∷◌, Map, put, remove, truthy,
  if◌then◌else◌, nonempty,
}
use fluxip.Event.IpClient.{NotificationPreference, ip_client_aggregate_type}
use fluxip.EventStore.{Table, Loaded, list_aggregate_ids}
use fluxip.Aggregates.IpClient.{IpClientState, IpClientStatus, on_duty, off_duty, retired}
use fluxip.Devices.Settle.{load_client}

pub record IpClientSummary : Type 0 where
  pub ip_client_id : String
  pub label : String
  pub status : IpClientStatus
  pub last_known_ipv4 : Option String
  pub last_known_ipv6 : Option String
  pub notification_preference : NotificationPreference

abbrev pub is_retired : IpClientStatus → Bool
is_retired retired = true
is_retired _ = false

unfoldable pub summary_with : Option String → IpClientState → Option IpClientSummary
summary_with none state = none
summary_with (some ip_client_id) state =
    if nonempty ip_client_id
    then some (record {
      ip_client_id = ip_client_id;
      label = state.label;
      status = state.status;
      last_known_ipv4 = state.last_known_ipv4;
      last_known_ipv6 = state.last_known_ipv6;
      notification_preference = state.notification_preference;
    })
    else none

unfoldable pub to_summary : IpClientState → Option IpClientSummary
unfolding summary_with
to_summary state = summary_with state.ip_client_id state

upsert_summary : Option IpClientSummary → Map IpClientSummary → Map IpClientSummary
upsert_summary none hash = hash
upsert_summary (some summary) hash =
    if is_retired summary.status
    then remove summary.ip_client_id hash
    else put summary.ip_client_id summary hash

unfoldable pub upsert_ip_client_projection :
    IpClientState → Map IpClientSummary → Map IpClientSummary
unfolding upsert_summary to_summary
upsert_ip_client_projection state hash = upsert_summary (to_summary state) hash

rebuild_one : Option IpClientSummary → Map IpClientSummary → Map IpClientSummary
rebuild_one none hash = hash
rebuild_one (some summary) hash =
    if is_retired summary.status then hash else put summary.ip_client_id summary hash

unfoldable pub rebuild_from :
    String → Table → List String → Map IpClientSummary → Map IpClientSummary
unfolding rebuild_one to_summary
rebuild_from account_id table [] hash = hash
rebuild_from account_id table (id ∷ ids) hash =
    rebuild_from account_id table ids
      (rebuild_one (to_summary (load_client account_id id table).state) hash)

abbrev pub ip_client_ids : String → Table → List String
ip_client_ids account_id table =
    list_aggregate_ids
      (record { account_id = account_id; aggregate_type = ip_client_aggregate_type }) table

unfoldable pub rebuild_ip_clients_projection : String → Table → Map IpClientSummary
unfolding rebuild_from
rebuild_ip_clients_projection account_id table =
    rebuild_from account_id table (ip_client_ids account_id table) []

abbrev pub exists : Map IpClientSummary → Bool
exists [] = false
exists (_ ∷ _) = true

-- The hash after `listIpClientsProjection`: its entries are what the call returns.
unfoldable pub list_ip_clients_projection :
    String → Table → Map IpClientSummary → Map IpClientSummary
unfolding rebuild_ip_clients_projection
list_ip_clients_projection account_id table hash =
    if exists hash then hash else rebuild_ip_clients_projection account_id table
