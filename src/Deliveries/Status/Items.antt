-- ===== src/Deliveries/Status/Items.antt =====
-- backend/src/adapters/http/routes/delivery-status.ts: the route that lists the status of the
-- delivery actions of a device.
use fluxip.Base.{
  ◌≡◌, refl, ap, ℕ, String, Bool, true, false, Option, none, some, List, [], ◌∷◌, filter, ◌==◌,
  is_some, leb, map, any, not, ◌&&◌, inl, inr, Bool-cases, Option-cases,
}
use fluxip.EventStore.{Table, Loaded}
use fluxip.Aggregates.Provider.{TraefikProviderState, LastPublished, LastApplied, LastApplyError}
use fluxip.Agent.Registry.{SessionRegistry, is_connected}
use fluxip.Devices.FanOut.{enabled_status}
use fluxip.Devices.Delivery.{DeliveryAction, list_delivery_actions}
use fluxip.ProviderStore.{load_active}
use fluxip.Providers.View.{derive_connection_state}
use fluxip.Deliveries.Status.{
  DeliveryStatus, is_error, Clock, derive_delivery_status, status_at, says_connected,
}

pub record ErrorView : Type 0 where
  pub reason : String
  pub at : String

pub record StatusItem : Type 0 where
  pub action_id : String
  pub traefik_provider_id : String
  pub provider_name : String
  pub group : String
  pub status : DeliveryStatus
  pub published_version : Option ℕ
  pub applied_version : Option ℕ
  pub error : Option ErrorView

abbrev pub published_version_of : Option LastPublished → Option ℕ
published_version_of none = none
published_version_of (some p) = some p.version

abbrev pub applied_version_of : Option LastApplied → Option ℕ
applied_version_of none = none
applied_version_of (some a) = some a.version

abbrev pub error_view : DeliveryStatus → Option LastApplyError → Option ErrorView
error_view is_error (some e) = some (record { reason = e.reason; at = e.applied_at })
error_view _ _ = none

unfoldable pub status_item :
    Clock → SessionRegistry → DeliveryAction → TraefikProviderState → StatusItem
unfolding is_connected
status_item clock registry action state =
    let status =
      derive_delivery_status clock state (is_connected action.traefik_provider_id registry)
        (enabled_status action.status) in
    record {
      action_id = action.action_id;
      traefik_provider_id = action.traefik_provider_id;
      provider_name = state.name;
      group = action.group;
      status = status;
      published_version = published_version_of state.last_published;
      applied_version = applied_version_of state.last_applied;
      error = error_view status state.last_apply_error;
    }

-- One pass of the loop: `continue` where no live provider is loaded.
push_item :
    Clock
    → SessionRegistry
    → DeliveryAction
    → Option (Loaded TraefikProviderState)
    → List StatusItem
    → List StatusItem
unfolding status_item
push_item clock registry action none rest = rest
push_item clock registry action (some loaded) rest =
    status_item clock registry action loaded.state ∷ rest

status_items : Clock → SessionRegistry → String → Table → List DeliveryAction → List StatusItem
unfolding push_item
status_items clock registry account_id table [] = []
status_items clock registry account_id table (action ∷ actions) =
    push_item clock registry action (load_active account_id action.traefik_provider_id table)
      (status_items clock registry account_id table actions)

unfoldable pub get_delivery_status :
    Clock → SessionRegistry → String → String → Table → List StatusItem
unfolding status_items
get_delivery_status clock registry account_id ip_client_id table =
    status_items clock registry account_id table (
      filter (λ (a : DeliveryAction). a.ip_client_id == ip_client_id)
        (list_delivery_actions account_id table))

-- An error is told with the status `error`, and with no other.
abbrev pub error_fits : DeliveryStatus → Option ErrorView → Bool
error_fits is_error (some _) = true
error_fits is_error none = false
error_fits _ (some _) = false
error_fits _ none = true

status_at-fits :
    (p : Option LastPublished) (e : Option LastApplyError) (a : Option LastApplied)
    → error_fits (status_at p e a) (error_view (status_at p e a) e) ≡ true
unfolding status_at
status_at-fits none e a = refl
status_at-fits (some p) none none = refl
status_at-fits (some p) none (some a) = elim (Bool-cases (leb p.version a.version)) [
  | inl y ↦ rw y refl
  | inr n ↦ rw n refl
]
status_at-fits (some p) (some e) none = elim (Bool-cases (leb p.version e.version)) [
  | inl y ↦ rw y refl
  | inr n ↦ rw n refl
]
status_at-fits (some p) (some e) (some a) = elim (Bool-cases (leb p.version e.version)) [
  | inl y ↦ rw y refl
  | inr n ↦ elim (Bool-cases (leb p.version a.version)) [
    | inl z ↦ rw n (rw z refl)
    | inr m ↦ rw n (rw m refl)
  ]
]

derive_delivery_status-fits :
    (clock : Clock) (state : TraefikProviderState) (connected action_enabled : Bool)
    → let status = derive_delivery_status clock state connected action_enabled in
      error_fits status (error_view status state.last_apply_error) ≡ true
unfolding derive_delivery_status
derive_delivery_status-fits clock state connected false = refl
derive_delivery_status-fits clock state connected true =
    elim (Bool-cases (
      says_connected
        (derive_connection_state clock.parse clock.started state connected clock.now))) [
          | inl y ↦
              rw y (status_at-fits state.last_published state.last_apply_error state.last_applied)
          | inr n ↦ rw n refl
        ]

status_item-fits :
    (clock : Clock) (registry : SessionRegistry) (action : DeliveryAction)
    (state : TraefikProviderState)
    → let item = status_item clock registry action state in error_fits item.status item.error ≡ true
unfolding status_item
status_item-fits clock registry action state =
    derive_delivery_status-fits clock state (is_connected action.traefik_provider_id registry)
      (enabled_status action.status)

abbrev pub is_listed : String → String → Table → DeliveryAction → Bool
is_listed account_id ip_client_id table action =
    action.ip_client_id == ip_client_id
    && is_some (load_active account_id action.traefik_provider_id table)

status_items_lem :
    (clock : Clock) (registry : SessionRegistry) (account_id ip_client_id : String) (table : Table)
    (actions : List DeliveryAction)
    → let items =
        status_items clock registry account_id table
          (filter (λ (a : DeliveryAction). a.ip_client_id == ip_client_id) actions) in
      (map (λ (i : StatusItem). i.action_id) items
        ≡ map
            (λ (a : DeliveryAction). a.action_id)
            (filter (is_listed account_id ip_client_id table) actions))
      × (any (λ (i : StatusItem). not (error_fits i.status i.error)) items ≡ false)
unfolding status_items push_item status_item
status_items_lem clock registry account_id ip_client_id table [] = (refl, refl)
status_items_lem clock registry account_id ip_client_id table (a ∷ actions) =
    let rest = status_items_lem clock registry account_id ip_client_id table actions in
    elim (Bool-cases (a.ip_client_id == ip_client_id)) [
      | inr n ↦ rw n rest
      | inl y ↦ elim (Option-cases (load_active account_id a.traefik_provider_id table)) [
        | inl e ↦ rw y (rw e rest)
        | inr f ↦ rw y (
            rw f.1 (
              ap (λ ids. a.action_id ∷ ids) rest.0,
              rw (status_item-fits clock registry a f.0.state) rest.1,
            ))
      ]
    ]

-- The listed items are those of the delivery actions of the device whose provider is live, in the
-- order of the actions; and an item tells an error exactly if its status is `error`.
pub get_delivery_status_lem :
    (clock : Clock) (registry : SessionRegistry) (account_id ip_client_id : String) (table : Table)
    → let items = get_delivery_status clock registry account_id ip_client_id table in
      (map (λ (i : StatusItem). i.action_id) items
        ≡ map
            (λ (a : DeliveryAction). a.action_id)
            (filter
              (is_listed account_id ip_client_id table)
              (list_delivery_actions account_id table)))
      × (any (λ (i : StatusItem). not (error_fits i.status i.error)) items ≡ false)
unfolding get_delivery_status
get_delivery_status_lem clock registry account_id ip_client_id table =
    status_items_lem clock registry account_id ip_client_id table
      (list_delivery_actions account_id table)
