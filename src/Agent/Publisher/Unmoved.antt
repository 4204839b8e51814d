-- ===== src/Agent/Publisher/Unmoved.antt =====
-- The content of a snapshot beside an event of a provider: it is read from actions and devices.
use fluxip.Base.{
  ◌≡◌, refl, ap, String, false, [], ◌∷◌, ◌++◌, ◌==◌, arith, eq_iff, filter-append, map,
}
use fluxip.Event.{StoredEvent}
use fluxip.Event.Action.{action_aggregate_type}
use fluxip.Event.IpClient.{ip_client_aggregate_type}
use fluxip.Event.Provider.{traefik_provider_aggregate_type}
use fluxip.EventStore.{Table, load_aggregate, list_aggregate_ids, in_account, in_stream}
use fluxip.EventStore.Streams.{read_stream-append_ne}
use fluxip.Aggregates.IpClient.{initial_ip_client_state, ip_client_reducer}
use fluxip.Aggregates.Action.{initial_action_state, action_reducer}
use fluxip.Devices.Delivery.{action_state, action_ids, collect}
use fluxip.Devices.Settle.{load_client, ip_client_stream}
use fluxip.Agent.Snapshot.{
  Platform, members, build_snapshot_content, group_of, sort_entries, by_group, member_of,
}
use Prim.Native.String.{compare}
use mathlib.Core.List.{foldl, append-nil}

module _ (table : Table) (row : StoredEvent)
    (of_provider : row.aggregate_type ≡ traefik_provider_aggregate_type) where
  not_in_stream :
      (account_id id aggregate_type : String)
      → (aggregate_type == traefik_provider_aggregate_type) ≡ false
      → in_stream
          (record { account_id = account_id; aggregate_type = aggregate_type; aggregate_id = id })
          row
        ≡ false
  unfolding in_stream
  not_in_stream account_id id aggregate_type h = ground (
    arith,
    of_provider,
    eq_iff row.aggregate_type aggregate_type,
    eq_iff aggregate_type traefik_provider_aggregate_type,
  )

  action_state_unmoved :
      (account_id action_id : String)
      → action_state (table ++ row ∷ []) account_id action_id
        ≡ action_state table account_id action_id
  unfolding action_state load_aggregate
  action_state_unmoved account_id action_id = ap (foldl action_reducer initial_action_state) (
      read_stream-append_ne _ row table
        (not_in_stream account_id action_id action_aggregate_type refl))

  client_unmoved :
      (account_id ip_client_id : String)
      → (load_client account_id ip_client_id (table ++ row ∷ [])).state
        ≡ (load_client account_id ip_client_id table).state
  unfolding load_client load_aggregate
  client_unmoved account_id ip_client_id = ap (foldl ip_client_reducer initial_ip_client_state) (
      read_stream-append_ne (ip_client_stream account_id ip_client_id) row table
        (not_in_stream account_id ip_client_id ip_client_aggregate_type refl))

  not_in_account :
      (account_id : String)
      → in_account (record { account_id = account_id; aggregate_type = action_aggregate_type }) row
        ≡ false
  unfolding in_account
  not_in_account account_id = ground (
    arith,
    of_provider,
    eq_iff row.aggregate_type action_aggregate_type,
    eq_iff action_aggregate_type traefik_provider_aggregate_type,
  )

  action_ids_unmoved :
      (account_id : String)
      → action_ids account_id (table ++ row ∷ []) ≡ action_ids account_id table
  unfolding list_aggregate_ids
  action_ids_unmoved account_id =
      rw
        (
          filter-append
              (in_account
                (record { account_id = account_id; aggregate_type = action_aggregate_type }))
              table (row ∷ []),
          not_in_account account_id,
        )
        (simp append-nil)

  pub content_unmoved :
      (platform : Platform) (account_id provider_id name : String)
      → build_snapshot_content platform account_id provider_id name (table ++ row ∷ [])
        ≡ build_snapshot_content platform account_id provider_id name table
  unfolding build_snapshot_content members
  content_unmoved platform account_id provider_id name = λ i. record {
    provider_name = name;
    groups = map (group_of platform) (
        sort_entries platform (λ a b. compare a.0 b.0)
          (by_group platform (λ c. client_unmoved account_id c i)
            (collect (λ a. member_of provider_id (action_state_unmoved account_id a i))
              (action_ids_unmoved account_id i))
            []));
  }
