-- ===== src/Devices/Delivery/Targets.antt =====
-- Which providers backend/src/domain/traefik-provider/delivery-actions.ts finds for a device.
use fluxip.Base.{
  ap, ◌∙◌, get_or, ◌≡◌, ◌≢◌, ◌↔◌, inl, inr, Bool-cases, eq_iff, opt_eq_iff, refl, ◌||◌, ◌&&◌,
  String, Bool, true, false, not, Option, none, some, List, [], ◌∷◌, map, ◌==◌, filter, opt_eq,
  contains, contains-distinct, NoRepeats, distinct-NoRepeats, arith, any,
}
use fluxip.Event.Action.{ActionConfig, traefik_config_delivery_action_type}
use fluxip.EventStore.{Table}
use fluxip.Aggregates.Action.{ActionState, ActionStatus, is_enabled, is_disabled, is_detached}
use fluxip.Devices.Delivery.{
  DeliveryAction, action_state, action_ids, detached_status, as_delivery, delivery_with,
  delivery_of, push_found, collect, list_delivery_actions, providers_of_device,
}

contains-map-filter :
    (provider_id ip_client_id : String) (actions : List DeliveryAction)
    → contains
        (map
          (λ (a : DeliveryAction). a.traefik_provider_id)
          (filter (λ (a : DeliveryAction). a.ip_client_id == ip_client_id) actions))
        provider_id
      ≡ any
          (λ (a : DeliveryAction).
            a.ip_client_id == ip_client_id && a.traefik_provider_id == provider_id)
          actions
contains-map-filter provider_id ip_client_id [] = refl
contains-map-filter provider_id ip_client_id (a ∷ actions) =
    ground (arith, contains-map-filter provider_id ip_client_id actions)

-- An action, neither detached nor without a configuration, that delivers to the provider for the
-- device.
pub record IsDeliveryTo (ip_client_id provider_id : String) (state : ActionState) : Type 0 where
  pub is_delivery : state.action_type ≡ some traefik_config_delivery_action_type
  pub is_attached : state.status ≢ is_detached
  pub on_device : state.ip_client_id ≡ some ip_client_id
  pub named_device : ip_client_id ≢ ""
  pub config : ActionConfig
  pub is_configured : state.config ≡ some config
  pub to_provider : (as_delivery config).traefik_provider_id ≡ provider_id

matches : String → String → DeliveryAction → Bool
matches ip_client_id provider_id a =
    a.ip_client_id == ip_client_id && a.traefik_provider_id == provider_id

any_found : (DeliveryAction → Bool) → Option DeliveryAction → Bool
any_found p none = false
any_found p (some a) = p a

any-push_found :
    (p : DeliveryAction → Bool) (o : Option DeliveryAction) (rest : List DeliveryAction)
    → any p (push_found o rest) ≡ (any_found p o || any p rest)
unfolding any_found
any-push_found p none rest = refl
any-push_found p (some a) rest = refl

any-collect-found :
    (p : DeliveryAction → Bool) (f : String → Option DeliveryAction) (ids : List String)
    → any p (collect f ids) ≡ true
    → (id : String) × (contains ids id ≡ true) × (any_found p (f id) ≡ true)
any-collect-found p f [] e = cc
any-collect-found p f (id ∷ ids) e = elim (Bool-cases (any_found p (f id))) [
  | inl y ↦ (id, ground (arith, eq_iff id id), y)
  | inr n ↦
      let (x, c, m) =
        any-collect-found p f ids (ground (arith, any-push_found p (f id) (collect f ids))) in
      (x, ground arith, m)
]

any-collect-from :
    (p : DeliveryAction → Bool) (f : String → Option DeliveryAction) (ids : List String)
    (id : String)
    → contains ids id ≡ true
    → any_found p (f id) ≡ true
    → any p (collect f ids) ≡ true
any-collect-from p f [] id c m = cc
any-collect-from p f (x ∷ ids) id c m = elim (Bool-cases (x == id)) [
  | inl y ↦
      let same : f x ≡ f id = ap f ((eq_iff x id).0 y) in
      rw (any-push_found p (f x) (collect f ids)) (rw same (rw m refl))
  | inr n ↦
      let rest = any-collect-from p f ids id (ground arith) m in
      rw (any-push_found p (f x) (collect f ids)) (rw rest (ground arith))
]

delivery_with-matches :
    (ip_client_id provider_id action_id : String) (state : ActionState) (o : Option String)
    (c : Option ActionConfig)
    → (any_found (matches ip_client_id provider_id) (delivery_with action_id state o c) ≡ true) ↔ (
        (o ≡ some ip_client_id)
        × (ip_client_id ≢ "")
        × ((config : ActionConfig) × (c ≡ some config)
            × ((as_delivery config).traefik_provider_id ≡ provider_id)))
unfolding any_found matches delivery_with
delivery_with-matches ip_client_id provider_id action_id state none c = (λ e. cc, λ h. cc)
delivery_with-matches ip_client_id provider_id action_id state (some d) none =
    (λ e. cc, λ h. cc (h.2.1))
delivery_with-matches ip_client_id provider_id action_id state (some d) (some config) =
    elim (Bool-cases (d == "")) [
      | inl y ↦
          rw y (λ e. cc, λ h. ground (arith, eq_iff d "", opt_eq_iff (some d) (some ip_client_id)))
      | inr n ↦ rw n (
        λ e. (
          ground (arith, eq_iff d ip_client_id, e),
          ground (arith, eq_iff d ip_client_id, eq_iff ip_client_id "", e),
          (
            config,
            refl,
            ground (arith, eq_iff (as_delivery config).traefik_provider_id provider_id, e),
          ),
        ),
        λ h.
            let (on, named, (x, is, to)) = h in
            let told = ap (λ o. (as_delivery (get_or o config)).traefik_provider_id) is ∙ to in
            ground (
              arith,
              eq_iff d ip_client_id,
              opt_eq_iff (some d) (some ip_client_id),
              eq_iff (as_delivery config).traefik_provider_id provider_id,
              on,
              told,
            ),
      )
    ]

detached_iff : (status : ActionStatus) → (detached_status status ≡ true) ↔ (status ≡ is_detached)
detached_iff is_enabled = ground arith
detached_iff is_disabled = ground arith
detached_iff is_detached = ground arith

delivery_of-matches :
    (ip_client_id provider_id action_id : String) (state : ActionState)
    → (any_found (matches ip_client_id provider_id) (delivery_of action_id state) ≡ true)
      ↔ IsDeliveryTo ip_client_id provider_id state
unfolding any_found matches delivery_of delivery_with
delivery_of-matches ip_client_id provider_id action_id state =
    let typed = opt_eq_iff state.action_type (some traefik_config_delivery_action_type) in
    let detached = detached_iff state.status in
    let found =
      delivery_with-matches ip_client_id provider_id action_id state state.ip_client_id
        state.config in
    elim (Bool-cases (
      not (opt_eq state.action_type (some traefik_config_delivery_action_type))
      || detached_status state.status)) [
        | inl y ↦ rw y (λ e. cc, λ h. ground (arith, typed, detached, h.is_delivery, h.is_attached))
        | inr n ↦ rw n (
          λ e.
              let (on, named, (x, is, to)) = found.0 e in
              record {
                is_delivery = ground (arith, typed);
                is_attached = ground (arith, detached);
                on_device = on;
                named_device = named;
                config = x;
                is_configured = is;
                to_provider = to;
              },
          λ h. found.1 (h.on_device, h.named_device, (h.config, h.is_configured, h.to_provider)),
        )
      ]

-- The providers of a device are told once each, and a provider is among them exactly if the device's
-- id is not empty and an action of the account, neither detached nor without a configuration,
-- delivers to the provider for the device.
pub providers_of_device_lem :
    (account_id ip_client_id provider_id : String) (table : Table)
    → NoRepeats (providers_of_device account_id ip_client_id table)
      × ((contains (providers_of_device account_id ip_client_id table) provider_id ≡ true) ↔ (
          (action_id : String) × (contains (action_ids account_id table) action_id ≡ true)
          × IsDeliveryTo ip_client_id provider_id (action_state table account_id action_id)))
unfolding providers_of_device list_delivery_actions matches
providers_of_device_lem account_id ip_client_id provider_id table =
    let ids = action_ids account_id table in
    let p = matches ip_client_id provider_id in
    let found = λ (id : String). delivery_of id (action_state table account_id id) in
    let told : contains (providers_of_device account_id ip_client_id table) provider_id
        ≡ any p (collect found ids) =
      contains-distinct _ provider_id
      ∙ contains-map-filter provider_id ip_client_id (collect found ids) in
    let of_action = λ (id : String).
      delivery_of-matches ip_client_id provider_id id (action_state table account_id id) in
    (
      distinct-NoRepeats _,
      rw told (
        λ e.
            let (id, listed, m) = any-collect-found p found ids e in
            (id, listed, (of_action id).0 m),
        λ (id, listed, d). any-collect-from p found ids id listed ((of_action id).1 d),
      ),
    )
