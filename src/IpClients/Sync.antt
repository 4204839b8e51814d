-- ===== src/IpClients/Sync.antt =====
-- The account's hash in Redis beside the event store, through every request.
use fluxip.Base.{
  ◌≡◌, refl, sym, ap, ◌∙◌, String, true, false, some, ◌==◌, eq_iff, arith, lookup, nonempty,
  contains, if◌then◌else◌, Bool-cases, inl, inr,
}
use fluxip.Event.{Payload, Stamp}
use fluxip.EventStore.Commands.{CanWrite}
use fluxip.Aggregates.IpClient.{IpClientState, fold_ip_client}
use fluxip.Devices.Settle.{load_client, ip_client_stream}
use fluxip.IpClients.{to_summary, ip_client_ids}
use fluxip.IpClients.Rebuild.{shown, shown_of, IsNamed}
use fluxip.IpClients.World.{
  RouteDeps, World, Request, register_client, list_clients, get_client, enable_client,
  disable_client, rotate_credential, set_preference, decommission_client, refresh_projection,
  schedule_device_providers,
}
use fluxip.IpClients.Routes.{Follow, nothing, refresh, refresh_and_schedule, follow}
use fluxip.IpClients.Follow.{schedule-keeps, follow-table}
use fluxip.IpClients.Writes.{lookup-upsert, written, load_client-own, load_client-other}

-- Each device is named by its stream, and the hash shows of every device what its state has to
-- show.
pub record InSync (account_id : String) (w : World) : Type 0 where
  pub named : IsNamed account_id w.table
  pub synced : (j : String) → lookup j w.hash ≡ shown_of account_id j w.table

-- What a request needs of the store: that its event can be written, and that a new device has a new
-- id that is a text.
unfoldable pub CanHandle : RouteDeps → Request → World → Type 0
CanHandle deps (register_client label id draw stamp) w =
    CanWrite (ip_client_stream deps.account_id id) stamp.ulid w.table
    × (nonempty id ≡ true)
    × (contains (ip_client_ids deps.account_id w.table) id ≡ false)
CanHandle deps list_clients w = Unit
CanHandle deps (get_client id) w = Unit
CanHandle deps (enable_client id stamp) w =
    CanWrite (ip_client_stream deps.account_id id) stamp.ulid w.table
CanHandle deps (disable_client id stamp) w =
    CanWrite (ip_client_stream deps.account_id id) stamp.ulid w.table
CanHandle deps (rotate_credential id draw stamp) w =
    CanWrite (ip_client_stream deps.account_id id) stamp.ulid w.table
CanHandle deps (set_preference id preference stamp) w =
    CanWrite (ip_client_stream deps.account_id id) stamp.ulid w.table
CanHandle deps (decommission_client id now stamp) w =
    CanWrite (ip_client_stream deps.account_id id) stamp.ulid w.table

-- The event leaves what the projection shows, where nothing refreshes it.
unfoldable pub ShowsSame : Follow → IpClientState → Payload → Type 0
ShowsSame nothing state payload = to_summary (fold_ip_client state payload) ≡ to_summary state
ShowsSame _ state payload = Unit

module _ (deps : RouteDeps) (id : String) (payload : Payload) (stamp : Stamp) (w : World)
    (can : CanWrite (ip_client_stream deps.account_id id) stamp.ulid w.table)
    (sync : InSync deps.account_id w)
    (name : (fold_ip_client (load_client deps.account_id id w.table).state payload).ip_client_id
      ≡ some id)
    (named : nonempty id ≡ true) where
  abbrev after : World
  after = written deps id payload stamp w can

  own_name : (load_client deps.account_id id after.table).state.ip_client_id ≡ some id
  own_name =
      ap (λ (s : IpClientState). s.ip_client_id) (load_client-own deps id payload stamp w can)
      ∙ name

  after-shown :
      (j : String)
      → shown_of deps.account_id j after.table ≡ (
          if id == j
          then shown
              (to_summary (fold_ip_client (load_client deps.account_id id w.table).state payload))
          else shown_of deps.account_id j w.table)
  after-shown j = elim (Bool-cases (id == j)) [
    | inl e ↦
        rw (e, sym ((eq_iff id j).0 e))
          (ap (λ (s : IpClientState). shown (to_summary s))
            (load_client-own deps id payload stamp w can))
    | inr e ↦ rw (e, load_client-other deps id payload stamp w can j e) refl
  ]

  after-IsNamed : IsNamed deps.account_id after.table
  after-IsNamed j i h = elim (Bool-cases (id == j)) [
    | inl e ↦ let g = rw (sym ((eq_iff id j).0 e), own_name) at h in ground (arith, eq_iff id j, g)
    | inr e ↦ sync.named j i (rw (load_client-other deps id payload stamp w can j e) at h)
  ]

  refresh-hash :
      (j : String)
      → lookup j (refresh_projection deps.account_id id after).hash
        ≡ shown_of deps.account_id j after.table
  unfolding refresh_projection
  refresh-hash j =
      rw
        (
          lookup-upsert (load_client deps.account_id id after.table).state id j w.hash own_name
              named,
          after-shown j,
          load_client-own deps id payload stamp w can,
          sync.synced j,
        )
        refl

  follow-hash :
      (f : Follow) (j : String)
      → ShowsSame f (load_client deps.account_id id w.table).state payload
      → lookup j (follow deps id f after).hash ≡ shown_of deps.account_id j after.table
  unfolding follow refresh_projection schedule_device_providers ShowsSame
  follow-hash nothing j h = elim (Bool-cases (id == j)) [
    | inl e ↦
        let same : to_summary
              (fold_ip_client (load_client deps.account_id id w.table).state payload)
            ≡ to_summary (load_client deps.account_id id w.table).state =
          h in
        rw (after-shown j, e, same, sym ((eq_iff id j).0 e)) (sync.synced id)
    | inr e ↦ rw (after-shown j, e) (sync.synced j)
  ]
  follow-hash refresh j h = refresh-hash j
  follow-hash refresh_and_schedule j h =
      rw (schedule-keeps deps id (refresh_projection deps.account_id id after)).1 (refresh-hash j)

  pub follow-InSync :
      (f : Follow)
      → ShowsSame f (load_client deps.account_id id w.table).state payload
      → InSync deps.account_id (follow deps id f after)
  follow-InSync f h = record {
    named = rw (follow-table deps id f after) after-IsNamed;
    synced = λ j. rw (follow-table deps id f after) (follow-hash f j h);
  }
