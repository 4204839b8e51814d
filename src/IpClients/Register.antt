-- ===== src/IpClients/Register.antt =====
-- The registration of a device, with the limit of the account.
use fluxip.Base.{
  ◌≡◌, refl, ◌⊎◌, ℕ, suc, ◌+◌, ◌≤◌, String, true, false, Option, some, List, [], ◌∷◌, ◌++◌, eq_iff,
  arith, leb, contains, Bool-cases, inl, inr,
}
use fluxip.Event.{Stamp, ok}
use fluxip.EventStore.{Table, load_aggregate}
use fluxip.EventStore.Commands.{CanWrite, read_stream-unlisted, list_aggregate_ids-next}
use fluxip.Aggregates.IpClient.{fold_ip_client}
use fluxip.Accounts.{get_state}
use fluxip.Devices.Settle.{load_client, ip_client_stream}
use fluxip.IpClients.{ip_client_ids}
use fluxip.IpClients.World.{
  RouteDeps, World, Draw, limit_reached, with_credential, count_in, count_active_ip_clients,
}
use fluxip.IpClients.Routes.{follow, refresh, registration, register_ip_client, label_of}
use fluxip.IpClients.Writes.{written, write_ok, load_client-own, load_client-other}
use fluxip.IpClients.Follow.{follow-table}

version-unlisted :
    (account_id id : String) (table : Table)
    → contains (ip_client_ids account_id table) id ≡ false
    → (load_client account_id id table).version ≡ 0
unfolding load_client load_aggregate
version-unlisted account_id id table h =
    rw (read_stream-unlisted (ip_client_stream account_id id) table h) refl

count_in-append :
    (account_id : String) (table : Table) (ids : List String) (id : String)
    → count_in account_id table (ids ++ id ∷ [])
      ≡ count_in account_id table ids + count_in account_id table (id ∷ [])
unfolding count_in
count_in-append account_id table [] id = omega arith
count_in-append account_id table (j ∷ ids) id =
    ground (arith, count_in-append account_id table ids id)

module _ (deps : RouteDeps) (label : Option String) (id : String) (draw : Draw) (stamp : Stamp)
    (w : World) (can : CanWrite (ip_client_stream deps.account_id id) stamp.ulid w.table)
    (fresh : contains (ip_client_ids deps.account_id w.table) id ≡ false) where
  abbrev pub registered_world : World
  registered_world = written deps id (registration deps label id draw) stamp w can

  abbrev limit : ℕ
  limit = (get_state deps.account_id w.table).device_limit

  pub register-cases :
      ((leb limit (count_active_ip_clients deps.account_id w.table) ≡ true)
        × (register_ip_client deps label id draw stamp w ≡ (ok (limit_reached limit), w)))
      ⊎ ((leb limit (count_active_ip_clients deps.account_id w.table) ≡ false)
          × (register_ip_client deps label id draw stamp w ≡ (
            ok (with_credential id (some (label_of deps.trim label)) draw.secret),
            follow deps id refresh registered_world,
          )))
  unfolding register_ip_client
  register-cases = elim (Bool-cases (leb limit (count_active_ip_clients deps.account_id w.table))) [
    | inl e ↦ inl (e, rw e refl)
    | inr e ↦
        let done = rw (version-unlisted deps.account_id id w.table fresh) at (
          write_ok deps id (registration deps label id draw) stamp w can refresh
            (with_credential id (some (label_of deps.trim label)) draw.secret)) in
        inr (e, rw e done)
  ]

  count_in-written :
      (ids : List String)
      → contains ids id ≡ false
      → count_in deps.account_id registered_world.table ids ≡ count_in deps.account_id w.table ids
  unfolding count_in
  count_in-written [] h = refl
  count_in-written (j ∷ ids) h =
      rw
        (
          load_client-other deps id (registration deps label id draw) stamp w can j
              (ground (arith, eq_iff j id, eq_iff id j)),
          count_in-written ids (ground arith),
        )
        refl

  count-new : count_in deps.account_id registered_world.table (id ∷ []) ≡ 1
  unfolding count_in fold_ip_client
  count-new = rw (load_client-own deps id (registration deps label id draw) stamp w can) refl

  count-registered :
      count_active_ip_clients deps.account_id registered_world.table
      ≡ suc (count_active_ip_clients deps.account_id w.table)
  unfolding count_active_ip_clients
  count-registered =
      rw
        (
          list_aggregate_ids-next deps.config (ip_client_stream deps.account_id id)
              (registration deps label id draw) stamp w.table,
          fresh,
          count_in-append deps.account_id registered_world.table
              (ip_client_ids deps.account_id w.table) id,
          count_in-written (ip_client_ids deps.account_id w.table) fresh,
          count-new,
        )
        (omega arith)

  -- If the registration's event can be written and its id is not listed: it is refused, with nothing
  -- changed, when the account has as many active devices as its limit or more; otherwise the account
  -- has one more active device, and not more than its limit.
  pub register_ip_client-limit :
      ((limit ≤ count_active_ip_clients deps.account_id w.table)
        × (register_ip_client deps label id draw stamp w ≡ (ok (limit_reached limit), w)))
      ⊎ ((count_active_ip_clients deps.account_id
              (register_ip_client deps label id draw stamp w).1.table
            ≡ suc (count_active_ip_clients deps.account_id w.table))
          × (suc (count_active_ip_clients deps.account_id w.table) ≤ limit))
  register_ip_client-limit = elim register-cases [
    | inl (h, e) ↦ inl (ground arith, e)
    | inr (h, e) ↦
        inr (rw (e, follow-table deps id refresh registered_world) count-registered, ground arith)
  ]
