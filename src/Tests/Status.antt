-- ===== src/Tests/Status.antt =====
-- A provider whose agent reports on a new snapshot, and an account with one delivery action.
use fluxip.Base.{
  ◌≡◌, refl, false, not, some, none, [], ◌∷◌, map, any, filter, leb, if◌then◌else◌, arith,
}
use fluxip.Event.Provider.{
  snapshot_applied, snapshot_apply_failed, snapshot_published, TraefikProviderSnapshotAppliedData,
  TraefikProviderSnapshotApplyFailedData, TraefikProviderSnapshotPublishedData,
}
use fluxip.Event.{of_action, AppendEventInput}
use fluxip.Event.Action.{
  attached, traefik, traefik_config_delivery_action_type, action_aggregate_type,
}
use fluxip.EventStore.{
  Table, row_of, load_aggregate, read_stream, list_aggregate_ids, order_by_sequence,
}
use fluxip.Tests.Samples.{input, first}
use fluxip.Aggregates.Provider.{
  TraefikProviderState, initial_traefik_provider_state, traefik_provider_reducer, fold_provider,
}
use fluxip.Devices.Delivery.{DeliveryAction, list_delivery_actions, delivery_of, action_state}
use fluxip.Aggregates.Action.{action_reducer}
use fluxip.ProviderStore.{load_active, load, is_live}
use fluxip.Deliveries.Status.{Clock, online, is_pending, is_applied, is_error, online-fold_provider}
use fluxip.Deliveries.Status.Items.{
  StatusItem, get_delivery_status, status_item, error_fits, is_listed, get_delivery_status_lem,
}

abbrev clock : Clock
clock = record { parse = λ _. 1000; started = 2000; now = 3000 }

abbrev publication : TraefikProviderSnapshotPublishedData
publication = record {
  content_hash = "h";
  group_count = 1;
  entry_count = 1;
  correlation_id = "c";
  absorbed_causation_ids = [];
  published_at = "t";
}

abbrev success : TraefikProviderSnapshotAppliedData
success = record {
  version = 4;
  correlation_id = "c";
  agent_version = "1.0.0";
  stale = false;
  files = [];
  templates = [];
  traefik_check = none;
  applied_at = "t";
}

abbrev failure : TraefikProviderSnapshotApplyFailedData
failure = record { version = 4; correlation_id = "c"; reason = "disk full"; applied_at = "t" }

-- The last report is on version 2.
abbrev reported : TraefikProviderState
reported = record initial_traefik_provider_state {
  last_apply_error =
      some (record { version = 2; correlation_id = "b"; reason = "disk full"; applied_at = "s" });
}

online-fold_provider_example :
    let published = fold_provider reported 4 (snapshot_published publication) in
    (online clock published ≡ is_pending)
    × (online clock (fold_provider published 5 (snapshot_applied success))
        ≡ (if leb 4 4 then is_applied else is_pending))
    × (online clock (fold_provider published 5 (snapshot_apply_failed failure))
        ≡ (if leb 4 4 then is_error else is_pending))
online-fold_provider_example =
    online-fold_provider clock reported 4 5 publication success failure (omega arith, tt)

abbrev delivery_attached : AppendEventInput
delivery_attached =
    record (input "a1" "A" 1 (
      of_action (
        attached (record {
          action_id = "X";
          account_id = "A";
          ip_client_id = "D";
          action_type = traefik_config_delivery_action_type;
          address_families = [];
          config = traefik (record { traefik_provider_id = "P"; group = "web" });
          attached_at = "t";
        })))) { aggregate_type = action_aggregate_type; aggregate_id = "X" }

abbrev table : Table
table = row_of first ∷ row_of delivery_attached ∷ []

-- The one action is listed.
item_listed :
    map (λ (i : StatusItem). i.action_id) (get_delivery_status clock [] "A" "D" table) ≡ "X" ∷ []
unfolding get_delivery_status list_delivery_actions delivery_of action_state action_reducer
    status_item list_aggregate_ids order_by_sequence load_active load is_live row_of load_aggregate
    read_stream traefik_provider_reducer
item_listed = refl

get_delivery_status_lem_example :
    let items = get_delivery_status clock [] "A" "D" table in
    (map (λ (i : StatusItem). i.action_id) items
      ≡ map
          (λ (a : DeliveryAction). a.action_id)
          (filter (is_listed "A" "D" table) (list_delivery_actions "A" table)))
    × (any (λ (i : StatusItem). not (error_fits i.status i.error)) items ≡ false)
get_delivery_status_lem_example = get_delivery_status_lem clock [] "A" "D" table
