-- ===== src/IpClients/Requests.antt =====
-- What every request leaves intact.
use fluxip.Base.{
  ◌≡◌, ◌⊎◌, refl, ap, ◌∙◌, String, true, false, Option, none, some, arith, nonempty, truthy,
  contains, Bool-cases, Option-cases, inl, inr,
}
use fluxip.Event.{Payload, Stamp}
use fluxip.Event.IpClient.{NotificationPreference}
use fluxip.EventStore.{Table}
use fluxip.EventStore.Commands.{CanWrite}
use fluxip.Aggregates.IpClient.{IpClientState, retired, fold_ip_client}
use fluxip.Devices.Settle.{load_client, ip_client_stream}
use fluxip.IpClients.{
  is_retired, summary_with, to_summary, ip_client_ids, list_ip_clients_projection, exists,
}
use fluxip.IpClients.Rebuild.{IsNamed, lookup-rebuild}
use fluxip.IpClients.World.{
  RouteDeps, World, Draw, Request, register_client, list_clients, get_client, enable_client,
  disable_client, rotate_credential, set_preference, decommission_client, Reply,
  load_owned_ip_client,
}
use fluxip.IpClients.Routes.{
  handle_request, Follow, refresh, enact, Verdict, reply_now, store_event, on_owned, if_owned,
  enable_verdict, disable_verdict, rotate_verdict, preference_verdict, decommission_verdict,
  register_ip_client, registration, get_ip_client, list_ip_clients, unless_retired,
}
use fluxip.IpClients.Register.{register-cases}
use fluxip.IpClients.Writes.{write_ok}
use fluxip.IpClients.Sync.{InSync, CanHandle, ShowsSame, follow-InSync}

-- An event of a verdict keeps the device's name and what the projection shows where nothing
-- refreshes it, and does not bring a decommissioned device back.
unfoldable pub Keeps : IpClientState → Payload → Follow → Type 0
Keeps state payload f =
    ((fold_ip_client state payload).ip_client_id ≡ state.ip_client_id)
    × ShowsSame f state payload
    × (state.status ≡ retired → (fold_ip_client state payload).status ≡ retired)

unfoldable pub IsSound : IpClientState → Verdict → Type 0
IsSound state (reply_now _) = Unit
IsSound state (store_event payload f reply) = Keeps state payload f

unless_retired-IsSound :
    (state : IpClientState) (early : Reply) (payload : Payload) (f : Follow) (late : Reply)
    → (is_retired state.status ≡ false → Keeps state payload f)
    → IsSound state (unless_retired state early (store_event payload f late))
unfolding unless_retired IsSound
unless_retired-IsSound state early payload f late h = elim (Bool-cases (is_retired state.status)) [
  | inl e ↦ rw e tt
  | inr e ↦ rw e (h e)
]

back_again :
    (state : IpClientState) {A : Type 0}
    → is_retired state.status ≡ false
    → state.status ≡ retired
    → A
back_again state e r = cc (rw r at e)

pub enable-IsSound : (id : String) (state : IpClientState) → IsSound state (enable_verdict id state)
unfolding enable_verdict Keeps ShowsSame fold_ip_client
enable-IsSound id state =
    unless_retired-IsSound state _ _ _ _ (λ e. (refl, tt, λ r. back_again state e r))

pub disable-IsSound :
    (id : String) (state : IpClientState) → IsSound state (disable_verdict id state)
unfolding disable_verdict Keeps ShowsSame fold_ip_client
disable-IsSound id state =
    unless_retired-IsSound state _ _ _ _ (λ e. (refl, tt, λ r. back_again state e r))

summary_with-credential :
    (hash : Option String) (id : Option String) (state : IpClientState)
    → summary_with id (record state { credential_hash = hash }) ≡ summary_with id state
unfolding summary_with
summary_with-credential hash none state = refl
summary_with-credential hash (some id) state = refl

pub rotate-IsSound :
    (id : String) (draw : Draw) (state : IpClientState)
    → IsSound state (rotate_verdict id draw state)
unfolding rotate_verdict Keeps ShowsSame fold_ip_client to_summary
rotate-IsSound id draw state =
    unless_retired-IsSound state _ _ _ _
      (λ e. (refl, summary_with-credential _ state.ip_client_id state, λ r. r))

pub decommission-IsSound :
    (id now : String) (state : IpClientState) → IsSound state (decommission_verdict id now state)
unfolding decommission_verdict Keeps ShowsSame fold_ip_client
decommission-IsSound id now state =
    unless_retired-IsSound state _ _ _ _ (λ e. (refl, tt, λ r. refl))

pub preference-IsSound :
    (id : String) (preference : Option NotificationPreference) (state : IpClientState)
    → IsSound state (preference_verdict id preference)
unfolding preference_verdict IsSound Keeps ShowsSame fold_ip_client
preference-IsSound id none state = tt
preference-IsSound id (some preference) state = (refl, tt, λ r. r)

pub load_owned-cases :
    (account_id id : String) (table : Table)
    → (load_owned_ip_client account_id id table ≡ none)
      ⊎ ((load_owned_ip_client account_id id table ≡ some (load_client account_id id table))
          × (truthy (load_client account_id id table).state.ip_client_id ≡ true))
unfolding load_owned_ip_client
load_owned-cases account_id id table = ground arith

own_id :
    (account_id id : String) (table : Table)
    → IsNamed account_id table
    → truthy (load_client account_id id table).state.ip_client_id ≡ true
    → ((load_client account_id id table).state.ip_client_id ≡ some id) × (nonempty id ≡ true)
own_id account_id id table named h =
    elim (Option-cases (load_client account_id id table).state.ip_client_id) [
      | inl e ↦ cc (rw e at h)
      | inr (i, e) ↦
          let same = named id i e in (e ∙ ap (λ (x : String). some x) same, rw (← same) (rw e at h))
    ]

module _ (deps : RouteDeps) (id : String) (stamp : Stamp) (w : World)
    (can : CanWrite (ip_client_stream deps.account_id id) stamp.ulid w.table)
    (sync : InSync deps.account_id w) where
  enact-InSync :
      (verdict : Verdict)
      → truthy (load_client deps.account_id id w.table).state.ip_client_id ≡ true
      → IsSound (load_client deps.account_id id w.table).state verdict
      → InSync deps.account_id
          (enact deps id stamp (load_client deps.account_id id w.table).version w verdict).1
  unfolding enact IsSound Keeps
  enact-InSync (reply_now reply) t s = sync
  enact-InSync (store_event payload f reply) t (name, same, _) =
      let (own, named) = own_id deps.account_id id w.table sync.named t in
      rw (write_ok deps id payload stamp w can f reply)
        (follow-InSync deps id payload stamp w can sync (name ∙ own) named f same)

  on_owned-InSync :
      (verdict : IpClientState → Verdict)
      → ((state : IpClientState) → IsSound state (verdict state))
      → InSync deps.account_id (on_owned deps id stamp verdict w).1
  unfolding on_owned if_owned
  on_owned-InSync verdict s = elim (load_owned-cases deps.account_id id w.table) [
    | inl e ↦ rw e sync
    | inr (e, t) ↦
        rw e (enact-InSync (verdict (load_client deps.account_id id w.table).state) t (s _))
  ]

register-InSync :
    (deps : RouteDeps) (label : Option String) (id : String) (draw : Draw) (stamp : Stamp)
    (w : World)
    → CanWrite (ip_client_stream deps.account_id id) stamp.ulid w.table
    → nonempty id ≡ true
    → contains (ip_client_ids deps.account_id w.table) id ≡ false
    → InSync deps.account_id w
    → InSync deps.account_id (register_ip_client deps label id draw stamp w).1
unfolding fold_ip_client ShowsSame
register-InSync deps label id draw stamp w can named fresh sync =
    elim (register-cases deps label id draw stamp w can fresh) [
      | inl (_, e) ↦ rw e sync
      | inr (_, e) ↦ rw e (
          follow-InSync deps id (registration deps label id draw) stamp w can sync refl named
            refresh tt)
    ]

list-InSync :
    (deps : RouteDeps) (w : World)
    → InSync deps.account_id w
    → InSync deps.account_id (list_ip_clients deps w).1
unfolding list_ip_clients list_ip_clients_projection
list-InSync deps w sync = elim (Bool-cases (exists w.hash)) [
  | inl e ↦ rw e sync
  | inr e ↦
      rw e
        (record { named = sync.named; synced = lookup-rebuild deps.account_id w.table sync.named })
]

-- Every request leaves it so: each device is named by its stream, and the account's hash shows of
-- every device what its state has to show, if the request's event can be written and a new device
-- gets a new id that is not empty.
pub handle_request-InSync :
    (deps : RouteDeps) (request : Request) (w : World)
    → CanHandle deps request w
    → InSync deps.account_id w
    → InSync deps.account_id (handle_request deps request w).1
unfolding handle_request CanHandle get_ip_client
handle_request-InSync deps (register_client label id draw stamp) w (can, named, fresh) sync =
    register-InSync deps label id draw stamp w can named fresh sync
handle_request-InSync deps list_clients w can sync = list-InSync deps w sync
handle_request-InSync deps (get_client id) w can sync = sync
handle_request-InSync deps (enable_client id stamp) w can sync =
    on_owned-InSync deps id stamp w can sync (enable_verdict id) (enable-IsSound id)
handle_request-InSync deps (disable_client id stamp) w can sync =
    on_owned-InSync deps id stamp w can sync (disable_verdict id) (disable-IsSound id)
handle_request-InSync deps (rotate_credential id draw stamp) w can sync =
    on_owned-InSync deps id stamp w can sync (rotate_verdict id draw) (rotate-IsSound id draw)
handle_request-InSync deps (set_preference id preference stamp) w can sync =
    on_owned-InSync deps id stamp w can sync (λ _. preference_verdict id preference)
      (preference-IsSound id preference)
handle_request-InSync deps (decommission_client id now stamp) w can sync =
    on_owned-InSync deps id stamp w can sync (decommission_verdict id now)
      (decommission-IsSound id now)
