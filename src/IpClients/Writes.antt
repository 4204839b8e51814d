-- ===== src/IpClients/Writes.antt =====
-- One event of a device, appended behind its stream: what the loads and the projection of the
-- account read afterwards.
use fluxip.Base.{
  ◌≡◌, refl, ap, ◌∙◌, String, true, false, some, [], ◌∷◌, ◌++◌, ◌==◌, arith, Map, lookup,
  lookup-put, lookup-remove, nonempty, if◌then◌else◌, Bool-cases, inl, inr,
}
use fluxip.Event.{Payload, ok, Stamp}
use fluxip.EventStore.{load_aggregate}
use fluxip.EventStore.Commands.{
  CanWrite, next_row, append_next_ok, load_next, load_other, next_row-other, next_row-payload,
}
use fluxip.Aggregates.IpClient.{
  IpClientState, initial_ip_client_state, ip_client_reducer, fold_ip_client,
}
use fluxip.Devices.Settle.{load_client, ip_client_stream}
use fluxip.IpClients.{IpClientSummary, is_retired, to_summary, upsert_ip_client_projection}
use fluxip.IpClients.Rebuild.{shown}
use fluxip.IpClients.World.{RouteDeps, World, Reply}
use fluxip.IpClients.Routes.{write, follow, after_append, Follow}

pub lookup-upsert :
    (state : IpClientState) (id j : String) (hash : Map IpClientSummary)
    → state.ip_client_id ≡ some id
    → nonempty id ≡ true
    → lookup j (upsert_ip_client_projection state hash)
      ≡ (if id == j then shown (to_summary state) else lookup j hash)
unfolding upsert_ip_client_projection to_summary shown
lookup-upsert state id j hash e h =
    rw (e, h)
      (elim (Bool-cases (is_retired state.status)) [
        | inl r ↦ rw r (lookup-remove id j hash)
        | inr r ↦ rw r (lookup-put id j _ hash)
      ])

module _ (deps : RouteDeps) (id : String) (payload : Payload) (stamp : Stamp) (w : World)
    (can : CanWrite (ip_client_stream deps.account_id id) stamp.ulid w.table) where
  abbrev pub written : World
  written = record w {
    table =
        w.table
        ++ next_row deps.config (ip_client_stream deps.account_id id) payload stamp w.table ∷ [];
  }

  pub write_ok :
      (f : Follow) (reply : Reply)
      → write deps id (load_client deps.account_id id w.table).version payload stamp f reply w
        ≡ (ok reply, follow deps id f written)
  unfolding write after_append load_client load_aggregate
  write_ok f reply =
      rw
        (append_next_ok deps.config (ip_client_stream deps.account_id id) payload stamp w.table can)
        refl

  pub load_client-own :
      (load_client deps.account_id id written.table).state
      ≡ fold_ip_client (load_client deps.account_id id w.table).state payload
  unfolding load_client ip_client_reducer
  load_client-own =
      load_next deps.config (ip_client_stream deps.account_id id) payload stamp w.table can
        initial_ip_client_state ip_client_reducer
      ∙ ap (fold_ip_client (load_client deps.account_id id w.table).state)
          (next_row-payload deps.config (ip_client_stream deps.account_id id) payload stamp w.table)

  pub load_client-other :
      (j : String)
      → (id == j) ≡ false
      → load_client deps.account_id j written.table ≡ load_client deps.account_id j w.table
  unfolding load_client
  load_client-other j h =
      load_other (ip_client_stream deps.account_id j) _ w.table initial_ip_client_state
        ip_client_reducer
        (next_row-other deps.config (ip_client_stream deps.account_id id) payload stamp w.table
          (ip_client_stream deps.account_id j) (ground arith))
