-- ===== src/Tests/Actions.antt =====
-- A device and a provider of one account, and a delivery action that is attached.
use fluxip.Base.{◌≡◌, refl, true, some, none, [], arith}
use fluxip.Event.{of_ip_client, AppendEventInput, ok, append_input, build_domain_event}
use fluxip.Event.Action.{traefik, traefik_config_delivery_action_type}
use fluxip.Event.IpClient.{client_registered, ip_client_aggregate_type}
use fluxip.EventStore.{Table, append, row_of, read_stream, load_aggregate, list_aggregate_ids}
use fluxip.EventStore.Consistency.{IsConsistent}
use fluxip.EventStore.Commands.{CanWrite, append_next}
use fluxip.EventStore.History.{empty, next, write, Reach-IsConsistent}
use fluxip.Devices.Delivery.{list_delivery_actions}
use fluxip.Devices.Settle.{load_client}
use fluxip.IpClients.World.{load_owned_ip_client}
use fluxip.ProviderStore.{load_active}
use fluxip.Aggregates.Provider.{traefik_provider_reducer}
use fluxip.Aggregates.IpClient.{ip_client_reducer}
use fluxip.Actions.{ActionsDeps, ActionsWorld, attached_as}
use fluxip.Actions.Routes.{AttachBody, attach_action, action_stream}
use fluxip.Actions.Attach.{IsUnclashing, attach_action-IsUnclashing}
use fluxip.Tests.Samples.{config, stamp, first}
use fluxip.Tests.Tables.{row, CanWrite-of}

abbrev door_row : AppendEventInput
door_row = row "d1" ip_client_aggregate_type "D" 1 (
    of_ip_client (
      client_registered (record {
        ip_client_id = "D";
        account_id = "A";
        label = "door";
        credential_hash = "h";
        registered_at = "t";
      })))

abbrev two : Table
two = (append door_row (append first []).1).1

two-IsConsistent : IsConsistent two
two-IsConsistent = Reach-IsConsistent (
    next (next empty (write first (omega arith) (omega arith)))
      (write door_row (omega arith) (omega arith)))

abbrev deps : ActionsDeps
deps = record {
  config = config;
  account_id = "A";
  has_providers = true;
  has_snapshots = true;
  trim = λ s. s;
  group_pattern = λ _. true;
  decrypt = λ s. ok s;
  get_firewall = λ _ _. none;
}

abbrev body : AttachBody
body = record {
  action_type = some traefik_config_delivery_action_type;
  address_families = none;
  config = some (traefik (record { traefik_provider_id = "P"; group = "web" }));
}

abbrev start : ActionsWorld
start = record { table = two; hashes = λ _. []; scheduled = []; cleaned = [] }

two-CanWrite : CanWrite (action_stream "A" "X") "x1" two
unfolding append row_of
two-CanWrite = CanWrite-of (action_stream "A" "X") "x1" two two-IsConsistent refl refl

two-IsUnclashing : IsUnclashing (list_delivery_actions "A" two)
unfolding list_delivery_actions append row_of list_aggregate_ids
two-IsUnclashing = tt

attach_action-IsUnclashing_example :
    IsUnclashing
      (list_delivery_actions "A" (attach_action deps "D" body "X" "t" (stamp "x1") start).1.table)
unfolding append row_of list_aggregate_ids
attach_action-IsUnclashing_example =
    attach_action-IsUnclashing deps "D" "X" body "t" (stamp "x1") start two-CanWrite refl refl refl
      two-IsUnclashing

-- The action is attached.
attaches : (attach_action deps "D" body "X" "t" (stamp "x1") start).0 ≡ ok (attached_as "X")
unfolding attach_action load_owned_ip_client load_client load_aggregate read_stream append
    ip_client_reducer load_active traefik_provider_reducer list_delivery_actions list_aggregate_ids
    append_next append_input build_domain_event
attaches = refl
