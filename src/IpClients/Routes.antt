-- ===== src/IpClients/Routes.antt =====
-- backend/src/adapters/http/routes/ip-clients.ts: the requests of one account, signed in as
-- `account_id`. A reply that the code gives an error status is `refused`; an error that it throws is
-- the `err` of the result. `trim`, the new ULIDs, the clock and the new credential are arguments.
use fluxip.Base.{ℕ, String, Option, none, some, leb, nonempty, if◌then◌else◌}
use fluxip.Event.{Payload, of_ip_client, StoredEvent, Result, ok, err, Stamp}
use fluxip.Event.IpClient.{
  NotificationPreference, client_registered, credential_rotated, client_enabled, client_disabled,
  decommissioned, notification_preference_set,
}
use fluxip.EventStore.{Table, Loaded}
use fluxip.EventStore.Commands.{append_next}
use fluxip.Aggregates.IpClient.{IpClientState, on_duty, off_duty, retired}
use fluxip.Accounts.{get_state}
use fluxip.Devices.Settle.{ip_client_stream}
use fluxip.IpClients.{is_retired, list_ip_clients_projection}
use fluxip.IpClients.World.{
  RouteDeps, World, Draw, Request, register_client, list_clients, get_client, enable_client,
  disable_client, rotate_credential, set_preference, decommission_client, Reply, refused,
  limit_reached, with_credential, items, one_client, with_status, with_preference,
  count_active_ip_clients, refresh_projection, schedule_device_providers, load_owned_ip_client,
}

-- What a handler does once its event is stored.
pub data Follow : Type 0 where
  nothing refresh refresh_and_schedule : Follow

unfoldable pub follow : RouteDeps → String → Follow → World → World
unfolding refresh_projection schedule_device_providers
follow deps id nothing w = w
follow deps id refresh w = refresh_projection deps.account_id id w
follow deps id refresh_and_schedule w =
    schedule_device_providers deps id (refresh_projection deps.account_id id w)

unfoldable pub after_append :
    RouteDeps → String → Follow → Reply → World → Result StoredEvent × Table → Result Reply × World
unfolding follow
after_append deps id f reply w (err e, table) = (err e, record w { table = table })
after_append deps id f reply w (ok _, table) =
    (ok reply, follow deps id f (record w { table = table }))

unfoldable pub write :
    RouteDeps → String → ℕ → Payload → Stamp → Follow → Reply → World → Result Reply × World
unfolding after_append
write deps id version payload stamp f reply w =
    after_append deps id f reply w
      (append_next deps.config (ip_client_stream deps.account_id id) version payload stamp w.table)

unfoldable pub label_of : (String → String) → Option String → String
label_of trim none = "Unnamed device"
label_of trim (some label) = if nonempty (trim label) then trim label else "Unnamed device"

abbrev pub registration : RouteDeps → Option String → String → Draw → Payload
registration deps label id draw = of_ip_client (
    client_registered (record {
      ip_client_id = id;
      account_id = deps.account_id;
      label = label_of deps.trim label;
      credential_hash = draw.credential_hash;
      registered_at = draw.now;
    }))

unfoldable pub register_ip_client :
    RouteDeps → Option String → String → Draw → Stamp → World → Result Reply × World
unfolding count_active_ip_clients label_of write
register_ip_client deps label id draw stamp w =
    let limit = (get_state deps.account_id w.table).device_limit in
    if leb limit (count_active_ip_clients deps.account_id w.table)
    then (ok (limit_reached limit), w)
    else write deps id 0 (registration deps label id draw) stamp refresh
        (with_credential id (some (label_of deps.trim label)) draw.secret) w

-- The event of a request on an owned device, what follows it and the reply; or the early reply.
pub data Verdict : Type 0 where
  reply_now : Reply → Verdict
  store_event : Payload → Follow → Reply → Verdict

unfoldable pub unless_retired : IpClientState → Reply → Verdict → Verdict
unless_retired state early late = if is_retired state.status then reply_now early else late

unfoldable pub preference_verdict : String → Option NotificationPreference → Verdict
preference_verdict id none =
    reply_now (refused 400 "preference must be one of \"off\", \"failures_only\", \"all\"")
preference_verdict id (some preference) =
    store_event (of_ip_client (notification_preference_set preference)) refresh
      (with_preference id preference)

unfoldable pub enable_verdict : String → IpClientState → Verdict
unfolding unless_retired
enable_verdict id state =
    unless_retired state (refused 409 "cannot enable a decommissioned IP Client")
      (store_event (of_ip_client (client_enabled id)) refresh_and_schedule (with_status id on_duty))

unfoldable pub disable_verdict : String → IpClientState → Verdict
unfolding unless_retired
disable_verdict id state =
    unless_retired state (refused 409 "cannot disable a decommissioned IP Client") (
      store_event (of_ip_client (client_disabled id)) refresh_and_schedule
        (with_status id off_duty))

unfoldable pub rotate_verdict : String → Draw → IpClientState → Verdict
unfolding unless_retired
rotate_verdict id draw state =
    unless_retired state (refused 409 "cannot rotate the credential of a decommissioned IP Client")
      (store_event
        (of_ip_client (
          credential_rotated
            (record { credential_hash = draw.credential_hash; rotated_at = draw.now })))
        nothing (with_credential id none draw.secret))

unfoldable pub decommission_verdict : String → String → IpClientState → Verdict
unfolding unless_retired
decommission_verdict id now state =
    unless_retired state (with_status id retired) (
      store_event (of_ip_client (decommissioned now)) refresh_and_schedule (with_status id retired))

unfoldable pub enact : RouteDeps → String → Stamp → ℕ → World → Verdict → Result Reply × World
unfolding write
enact deps id stamp version w (reply_now reply) = (ok reply, w)
enact deps id stamp version w (store_event payload f reply) =
    write deps id version payload stamp f reply w

unfoldable pub if_owned :
    RouteDeps
    → String
    → Stamp
    → (IpClientState → Verdict)
    → World
    → Option (Loaded IpClientState)
    → Result Reply × World
unfolding enact
if_owned deps id stamp verdict w none = (ok (refused 404 "not found"), w)
if_owned deps id stamp verdict w (some owned) =
    enact deps id stamp owned.version w (verdict owned.state)

unfoldable pub on_owned :
    RouteDeps → String → Stamp → (IpClientState → Verdict) → World → Result Reply × World
unfolding if_owned load_owned_ip_client
on_owned deps id stamp verdict w =
    if_owned deps id stamp verdict w (load_owned_ip_client deps.account_id id w.table)

unfoldable pub shown_reply : Option (Loaded IpClientState) → Reply
shown_reply none = refused 404 "not found"
shown_reply (some owned) = one_client owned.state

unfoldable pub get_ip_client : RouteDeps → String → World → Result Reply × World
unfolding shown_reply load_owned_ip_client
get_ip_client deps id w = (ok (shown_reply (load_owned_ip_client deps.account_id id w.table)), w)

unfoldable pub list_ip_clients : RouteDeps → World → Result Reply × World
list_ip_clients deps w =
    let hash = list_ip_clients_projection deps.account_id w.table w.hash in
    (ok (items hash), record w { hash = hash })

unfoldable pub handle_request : RouteDeps → Request → World → Result Reply × World
unfolding register_ip_client on_owned list_ip_clients enable_verdict disable_verdict rotate_verdict
    decommission_verdict preference_verdict get_ip_client
handle_request deps (register_client label id draw stamp) w =
    register_ip_client deps label id draw stamp w
handle_request deps list_clients w = list_ip_clients deps w
handle_request deps (get_client id) w = get_ip_client deps id w
handle_request deps (enable_client id stamp) w = on_owned deps id stamp (enable_verdict id) w
handle_request deps (disable_client id stamp) w = on_owned deps id stamp (disable_verdict id) w
handle_request deps (rotate_credential id draw stamp) w =
    on_owned deps id stamp (rotate_verdict id draw) w
handle_request deps (set_preference id preference stamp) w =
    on_owned deps id stamp (λ _. preference_verdict id preference) w
handle_request deps (decommission_client id now stamp) w =
    on_owned deps id stamp (decommission_verdict id now) w
