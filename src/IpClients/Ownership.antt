-- ===== src/IpClients/Ownership.antt =====
-- A decommissioned device, and the devices of other accounts.
use fluxip.Base.{
  String, Option, some, none, sym, eq_iff, contains, Bool-cases, inl, inr, ◌==◌, ◌≡◌, refl, false,
}
use fluxip.Event.{Payload, Stamp, ok}
use fluxip.EventStore.{Table, load_aggregate}
use fluxip.EventStore.Commands.{CanWrite, read_stream-unlisted}
use fluxip.Aggregates.IpClient.{IpClientState, IpClientStatus, on_duty, retired, fold_ip_client}
use fluxip.Devices.Settle.{load_client, ip_client_stream}
use fluxip.IpClients.{ip_client_ids}
use fluxip.IpClients.World.{
  RouteDeps, World, Draw, Request, register_client, list_clients, get_client, enable_client,
  disable_client, rotate_credential, set_preference, decommission_client, load_owned_ip_client,
  refused,
}
use fluxip.IpClients.Routes.{
  Follow, follow, shown_reply, if_owned, get_ip_client, list_ip_clients, handle_request, Follow,
  refresh, enact, Verdict, reply_now, store_event, on_owned, if_owned, enable_verdict,
  disable_verdict, rotate_verdict, preference_verdict, decommission_verdict, register_ip_client,
  registration, get_ip_client, list_ip_clients,
}
use fluxip.IpClients.Register.{register-cases}
use fluxip.IpClients.Requests.{
  Keeps, IsSound, enable-IsSound, disable-IsSound, rotate-IsSound, decommission-IsSound,
  preference-IsSound, load_owned-cases,
}
use fluxip.IpClients.Follow.{follow-table}
use fluxip.IpClients.Writes.{written, write_ok, load_client-own, load_client-other}
use fluxip.IpClients.Sync.{CanHandle}

abbrev pub status_of : String → String → Table → IpClientStatus
status_of account_id id table = (load_client account_id id table).state.status

module _ (deps : RouteDeps) (id : String) (payload : Payload) (stamp : Stamp) (w : World)
    (can : CanWrite (ip_client_stream deps.account_id id) stamp.ulid w.table) (j : String)
    (gone : status_of deps.account_id j w.table ≡ retired) where
  written-retired :
      ((load_client deps.account_id id w.table).state.status ≡ retired
        → (fold_ip_client (load_client deps.account_id id w.table).state payload).status ≡ retired)
      → (load_client deps.account_id j (written deps id payload stamp w can).table).state.status
        ≡ retired
  written-retired keeps = elim (Bool-cases (id == j)) [
    | inl e ↦
        rw (sym ((eq_iff id j).0 e), load_client-own deps id payload stamp w can)
          (keeps (rw ((eq_iff id j).0 e) gone))
    | inr e ↦ rw (load_client-other deps id payload stamp w can j e) gone
  ]

  follow-retired :
      (f : Follow)
      → ((load_client deps.account_id id w.table).state.status ≡ retired
          → (fold_ip_client (load_client deps.account_id id w.table).state payload).status
            ≡ retired)
      → (load_client deps.account_id j
          (follow deps id f (written deps id payload stamp w can)).table).state.status
        ≡ retired
  follow-retired f keeps =
      rw (follow-table deps id f (written deps id payload stamp w can)) (written-retired keeps)

module _ (deps : RouteDeps) (id : String) (stamp : Stamp) (w : World)
    (can : CanWrite (ip_client_stream deps.account_id id) stamp.ulid w.table) (j : String)
    (gone : status_of deps.account_id j w.table ≡ retired) where
  enact-retired :
      (verdict : Verdict)
      → IsSound (load_client deps.account_id id w.table).state verdict
      → status_of deps.account_id j
          (enact deps id stamp (load_client deps.account_id id w.table).version w verdict).1.table
        ≡ retired
  unfolding enact IsSound Keeps
  enact-retired (reply_now reply) s = gone
  enact-retired (store_event payload f reply) (_, _, keeps) =
      rw (write_ok deps id payload stamp w can f reply)
        (follow-retired deps id payload stamp w can j gone f keeps)

  on_owned-retired :
      (verdict : IpClientState → Verdict)
      → ((state : IpClientState) → IsSound state (verdict state))
      → status_of deps.account_id j (on_owned deps id stamp verdict w).1.table ≡ retired
  unfolding on_owned if_owned
  on_owned-retired verdict s = elim (load_owned-cases deps.account_id id w.table) [
    | inl e ↦ rw e gone
    | inr (e, t) ↦
        rw e (enact-retired (verdict (load_client deps.account_id id w.table).state) (s _))
  ]

status-unlisted :
    (account_id id : String) (table : Table)
    → contains (ip_client_ids account_id table) id ≡ false
    → status_of account_id id table ≡ on_duty
unfolding load_client load_aggregate
status-unlisted account_id id table h =
    rw (status_of, read_stream-unlisted (ip_client_stream account_id id) table h) refl

register-retired :
    (deps : RouteDeps) (label : Option String) (id : String) (draw : Draw) (stamp : Stamp)
    (w : World)
    → CanWrite (ip_client_stream deps.account_id id) stamp.ulid w.table
    → contains (ip_client_ids deps.account_id w.table) id ≡ false
    → (j : String) → status_of deps.account_id j w.table ≡ retired
    → status_of deps.account_id j (register_ip_client deps label id draw stamp w).1.table ≡ retired
register-retired deps label id draw stamp w can fresh j gone =
    elim (register-cases deps label id draw stamp w can fresh) [
      | inl (_, e) ↦ rw e gone
      | inr (_, e) ↦ rw e (
          follow-retired deps id (registration deps label id draw) stamp w can j gone refresh
            (λ r. cc (status-unlisted deps.account_id id w.table fresh)))
    ]

-- No request brings a decommissioned device back, if the request's event can be written and a new
-- device gets a new id that is not empty.
pub handle_request-retired :
    (deps : RouteDeps) (request : Request) (w : World)
    → CanHandle deps request w
    → (j : String) → status_of deps.account_id j w.table ≡ retired
    → status_of deps.account_id j (handle_request deps request w).1.table ≡ retired
unfolding handle_request CanHandle get_ip_client list_ip_clients
handle_request-retired deps (register_client label id draw stamp) w (can, named, fresh) j gone =
    register-retired deps label id draw stamp w can fresh j gone
handle_request-retired deps list_clients w can j gone = gone
handle_request-retired deps (get_client id) w can j gone = gone
handle_request-retired deps (enable_client id stamp) w can j gone =
    on_owned-retired deps id stamp w can j gone (enable_verdict id) (enable-IsSound id)
handle_request-retired deps (disable_client id stamp) w can j gone =
    on_owned-retired deps id stamp w can j gone (disable_verdict id) (disable-IsSound id)
handle_request-retired deps (rotate_credential id draw stamp) w can j gone =
    on_owned-retired deps id stamp w can j gone (rotate_verdict id draw) (rotate-IsSound id draw)
handle_request-retired deps (set_preference id preference stamp) w can j gone =
    on_owned-retired deps id stamp w can j gone (λ _. preference_verdict id preference)
      (preference-IsSound id preference)
handle_request-retired deps (decommission_client id now stamp) w can j gone =
    on_owned-retired deps id stamp w can j gone (decommission_verdict id now)
      (decommission-IsSound id now)

-- The device that a request names in its path.
abbrev pub named_device : Request → Option String
named_device (get_client id) = some id
named_device (enable_client id _) = some id
named_device (disable_client id _) = some id
named_device (rotate_credential id _ _) = some id
named_device (set_preference id _ _) = some id
named_device (decommission_client id _ _) = some id
named_device _ = none

load_owned-unlisted :
    (account_id id : String) (table : Table)
    → contains (ip_client_ids account_id table) id ≡ false
    → load_owned_ip_client account_id id table ≡ none
unfolding load_owned_ip_client load_client load_aggregate
load_owned-unlisted account_id id table h =
    rw (read_stream-unlisted (ip_client_stream account_id id) table h) refl

not_owned :
    (deps : RouteDeps) (j id : String) (w : World)
    → some j ≡ some id
    → contains (ip_client_ids deps.account_id w.table) id ≡ false
    → load_owned_ip_client deps.account_id j w.table ≡ none
not_owned deps j id w e h =
    let same : j ≡ id = cc in rw same (load_owned-unlisted deps.account_id id w.table h)

-- A request that names a device of which the account has no event is answered by "not found", and
-- changes nothing.
pub handle_request_foreign :
    (deps : RouteDeps) (request : Request) (w : World) (id : String)
    → named_device request ≡ some id
    → contains (ip_client_ids deps.account_id w.table) id ≡ false
    → handle_request deps request w ≡ (ok (refused 404 "not found"), w)
unfolding handle_request on_owned if_owned get_ip_client shown_reply
handle_request_foreign deps (register_client _ _ _ _) w id e h = cc
handle_request_foreign deps list_clients w id e h = cc
handle_request_foreign deps (get_client j) w id e h = rw (not_owned deps j id w e h) refl
handle_request_foreign deps (enable_client j _) w id e h = rw (not_owned deps j id w e h) refl
handle_request_foreign deps (disable_client j _) w id e h = rw (not_owned deps j id w e h) refl
handle_request_foreign deps (rotate_credential j _ _) w id e h = rw (not_owned deps j id w e h) refl
handle_request_foreign deps (set_preference j _ _) w id e h = rw (not_owned deps j id w e h) refl
handle_request_foreign deps (decommission_client j _ _) w id e h =
    rw (not_owned deps j id w e h) refl
