-- ===== src/Tests/IpClients.antt =====
-- An account with a limit of one device, and the requests of its user.
use fluxip.Base.{◌≡◌, ◌⊎◌, ◌≤◌, refl, true, some, [], arith, lookup}
use fluxip.Event.{of_account, of_ip_client, ok, AppendEventInput}
use fluxip.Event.Account.{registered, account_aggregate_type}
use fluxip.Event.IpClient.{
  client_registered, decommissioned, ip_client_aggregate_type, all_outcomes,
}
use fluxip.EventStore.{Table, append, row_of, read_stream, load_aggregate, list_aggregate_ids}
use fluxip.EventStore.History.{Reach, empty, next, write, Reach-IsConsistent}
use fluxip.Aggregates.IpClient.{retired, ip_client_reducer}
use fluxip.Aggregates.Account.{account_reducer}
use fluxip.Accounts.{get_state}
use fluxip.Devices.Settle.{load_client}
use fluxip.IpClients.{rebuild_ip_clients_projection, to_summary}
use fluxip.IpClients.Rebuild.{shown, shown_of, lookup-rebuild}
use fluxip.IpClients.World.{
  RouteDeps, World, Draw, Request, register_client, set_preference, enable_client, refused,
  limit_reached, count_active_ip_clients,
}
use fluxip.IpClients.Routes.{handle_request, register_ip_client}
use fluxip.IpClients.Sync.{InSync, CanHandle}
use fluxip.IpClients.Requests.{handle_request-InSync}
use fluxip.IpClients.Register.{register_ip_client-limit}
use fluxip.IpClients.Ownership.{handle_request-retired, handle_request_foreign, status_of}
use fluxip.Tests.Samples.{config, stamp}
use fluxip.Tests.Tables.{row, CanWrite-of}

abbrev account_row : AppendEventInput
account_row =
    row "a1" account_aggregate_type "A" 1
      (of_account (registered (record { account_id = "A"; device_limit = 1; registered_at = "t" })))

abbrev door_row : AppendEventInput
door_row = row "d1" ip_client_aggregate_type "D" 1 (
    of_ip_client (
      client_registered (record {
        ip_client_id = "D";
        account_id = "A";
        label = "door";
        credential_hash = "h";
        registered_at = "t";
      })))

abbrev door_gone : AppendEventInput
door_gone = row "d2" ip_client_aggregate_type "D" 2 (of_ip_client (decommissioned "t"))

abbrev one : Table
one = (append account_row []).1

abbrev two : Table
two = (append door_row one).1

abbrev three : Table
three = (append door_gone two).1

one-Reach : Reach one
one-Reach = next empty (write account_row (omega arith) (omega arith))

two-Reach : Reach two
two-Reach = next one-Reach (write door_row (omega arith) (omega arith))

three-Reach : Reach three
three-Reach =
    next two-Reach (write door_gone (omega arith) (unfold append read_stream row_of in omega arith))

abbrev deps : RouteDeps
deps = record { config = config; account_id = "A"; has_snapshots = true; trim = λ s. s }

abbrev draw : Draw
draw = record { secret = "s"; credential_hash = "h"; now = "t" }

abbrev start : World
start = record { table = one; hash = []; scheduled = [] }

abbrev over : World
over = record { table = three; hash = []; scheduled = [] }

start-InSync : InSync "A" start
unfolding append row_of load_client load_aggregate read_stream shown to_summary lookup
start-InSync = record { named = λ id i h. cc; synced = λ j. refl }

abbrev adds : Request
adds = register_client (some "door") "D" draw (stamp "d1")

adds-CanHandle : CanHandle deps adds start
unfolding CanHandle append row_of list_aggregate_ids
adds-CanHandle = (CanWrite-of _ "d1" one (Reach-IsConsistent one-Reach) refl refl, refl, refl)

handle_request-InSync_example : InSync "A" (handle_request deps adds start).1
handle_request-InSync_example = handle_request-InSync deps adds start adds-CanHandle start-InSync

lookup-rebuild_example :
    lookup "D" (rebuild_ip_clients_projection "A" (handle_request deps adds start).1.table)
    ≡ shown_of "A" "D" (handle_request deps adds start).1.table
lookup-rebuild_example =
    lookup-rebuild "A" (handle_request deps adds start).1.table
      (handle_request-InSync deps adds start adds-CanHandle start-InSync).named "D"

register_ip_client-limit_example :
    ((1 ≤ 0)
      × (register_ip_client deps (some "door") "D" draw (stamp "d1") start
          ≡ (ok (limit_reached 1), start)))
    ⊎ ((count_active_ip_clients "A"
            (register_ip_client deps (some "door") "D" draw (stamp "d1") start).1.table
          ≡ 1)
        × (1 ≤ 1))
unfolding get_state count_active_ip_clients append row_of read_stream load_aggregate account_reducer
    list_aggregate_ids CanHandle
register_ip_client-limit_example =
    register_ip_client-limit deps (some "door") "D" draw (stamp "d1") start adds-CanHandle.0 refl

abbrev prefers : Request
prefers = set_preference "D" (some all_outcomes) (stamp "d3")

prefers-CanHandle : CanHandle deps prefers over
unfolding CanHandle append row_of list_aggregate_ids
prefers-CanHandle = CanWrite-of _ "d3" three (Reach-IsConsistent three-Reach) refl refl

door_retired : status_of "A" "D" three ≡ retired
unfolding append row_of load_client load_aggregate read_stream ip_client_reducer
door_retired = refl

handle_request-retired_example :
    status_of "A" "D" (handle_request deps prefers over).1.table ≡ retired
handle_request-retired_example =
    handle_request-retired deps prefers over prefers-CanHandle "D" door_retired

handle_request_foreign_example :
    handle_request deps (enable_client "E" (stamp "d3")) over ≡ (ok (refused 404 "not found"), over)
unfolding append row_of list_aggregate_ids
handle_request_foreign_example =
    handle_request_foreign deps (enable_client "E" (stamp "d3")) over "E" refl refl
