-- ===== src/Tests/Deliveries.antt =====
-- A change that one snapshot absorbed and a later one names.
use fluxip.Base.{◌≡◌, refl, ℕ, String, true, some, List, [], ◌∷◌, lookup, or_else}
use fluxip.Event.{of_provider, StoredEvent}
use fluxip.Event.Provider.{snapshot_published}
use fluxip.EventStore.{row_of, order_by_sequence}
use fluxip.Deliveries.{DeliveryActionRef, DeliveryProvider, rows_for, named_rows}
use fluxip.Deliveries.Rows.{last_where, delivers, names, rows_for_lem}
use fluxip.Tests.Samples.{input}

abbrev action : DeliveryActionRef
action = record { action_id = "X"; traefik_provider_id = "P"; group = "web" }

abbrev publication : String → List String → ℕ → StoredEvent
publication cause absorbed n = row_of (
    input "e" "A" n (
      of_provider (
        snapshot_published (record {
          content_hash = "h";
          group_count = 1;
          entry_count = 1;
          correlation_id = cause;
          absorbed_causation_ids = absorbed;
          published_at = "t";
        }))))

abbrev provider : DeliveryProvider
provider = record {
  name = some "home";
  events = publication "c1" [] 2 ∷ publication "c2" ("c1" ∷ []) 3 ∷ [];
}

rows_for_lem_example :
    lookup "c1" (rows_for (λ _. true) action (some provider))
    ≡ or_else
        (last_where (delivers "c1") (
          named_rows action provider
            (order_by_sequence provider.events)
            (order_by_sequence provider.events)))
        (last_where (names "c1") (
          named_rows action provider
            (order_by_sequence provider.events)
            (order_by_sequence provider.events)))
rows_for_lem_example = rows_for_lem (λ _. true) "c1" refl action provider
