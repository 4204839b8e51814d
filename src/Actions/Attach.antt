-- ===== src/Actions/Attach.antt =====
-- A delivery action, attached to a device: no two have the same target.
use fluxip.Base.{
  ◌≡◌, refl, sym, ap, inl, inr, String, Bool, true, false, not, ◌&&◌, Option, none, some, List, [],
  ◌∷◌, ◌++◌, ◌==◌, eq_iff, arith, any, any-append, get_or, distinct, find, contains, nonempty,
  is_some, if◌then◌else◌, Bool-cases,
}
use fluxip.Event.{Stamp, Result, ok}
use fluxip.Event.Action.{
  AddressFamily, ActionConfig, traefik, TraefikConfigDeliveryConfig,
  traefik_config_delivery_action_type,
}
use fluxip.EventStore.{Table}
use fluxip.EventStore.Append.{stream_length}
use fluxip.EventStore.Commands.{CanWrite, read_stream-unlisted}
use fluxip.ProviderStore.{load_active}
use fluxip.Devices.Delivery.{DeliveryAction, action_ids, list_delivery_actions}
use fluxip.Executions.Resolve.{is_firewall}
use fluxip.IpClients.World.{load_owned_ip_client}
use fluxip.Actions.{ActionsDeps, ActionsWorld, ActionReply, refused}
use fluxip.Actions.Checks.{
  raw_delivery, with_clash, DeliveryValidation, valid, invalid, ConfigCheck, accepted, rejected,
  check_thrown, clashes, validate_delivery_config, check_delivery,
}
use fluxip.Actions.Routes.{
  action_stream, AttachBody, attach_action, attach_checked, check_config, store_action,
  after_stored, is_delivery, is_dns, no_family, device_is_gone, attached_families, follow_attach,
  schedule_ids, schedule_delivery, refresh_action,
}
use fluxip.Actions.Listed.{append-at, list-stored}

find-any : {A : Type 0} (p : A → Bool) (xs : List A) → find p xs ≡ none → any p xs ≡ false
find-any p [] h = refl
find-any p (x ∷ xs) h = ground (arith, find-any p xs)

-- Two actions deliver from the same device to the same provider.
abbrev pub same_target : DeliveryAction → DeliveryAction → Bool
same_target a b = b.ip_client_id == a.ip_client_id && b.traefik_provider_id == a.traefik_provider_id

-- No two delivery actions have the same target.
abbrev pub IsUnclashing : List DeliveryAction → Type 0
IsUnclashing [] = Unit
IsUnclashing (a ∷ actions) = (any (same_target a) actions ≡ false) × IsUnclashing actions

IsUnclashing-append :
    (actions : List DeliveryAction) (new : DeliveryAction)
    → IsUnclashing actions
    → any (clashes new.ip_client_id new.traefik_provider_id none) actions ≡ false
    → IsUnclashing (actions ++ new ∷ [])
unfolding clashes
IsUnclashing-append [] new u h = (refl, tt)
IsUnclashing-append (a ∷ actions) new u h = (
  ground (
    arith,
    any-append (same_target a) actions (new ∷ []),
    eq_iff a.ip_client_id new.ip_client_id,
    eq_iff new.ip_client_id a.ip_client_id,
    eq_iff a.traefik_provider_id new.traefik_provider_id,
    eq_iff new.traefik_provider_id a.traefik_provider_id,
  ),
  IsUnclashing-append actions new u.1 (ground arith),
)

guarded :
    (a b c d : Bool) (i j k l : ActionReply) (v : DeliveryValidation)
    (config : TraefikConfigDeliveryConfig)
    → (if a
        then invalid i
        else if b
        then invalid j
        else if c
        then invalid k
        else if d
        then invalid l
        else v)
      ≡ valid config
    → v ≡ valid config
guarded true b c d i j k l v config h = cc
guarded false true c d i j k l v config h = cc
guarded false false true d i j k l v config h = cc
guarded false false false true i j k l v config h = cc
guarded false false false false i j k l v config h = h

with_clash-valid :
    (c config : TraefikConfigDeliveryConfig) (o : Option DeliveryAction)
    → with_clash c o ≡ valid config
    → (c ≡ config) × (o ≡ none)
unfolding with_clash
with_clash-valid c config none h = (cc, refl)
with_clash-valid c config (some a) h = cc

check_delivery-accepted :
    (v : DeliveryValidation) (config : ActionConfig)
    → check_delivery v ≡ accepted config
    → (target : TraefikConfigDeliveryConfig) × (config ≡ traefik target) × (v ≡ valid target)
unfolding check_delivery
check_delivery-accepted (valid c) config h = (c, cc, refl)
check_delivery-accepted (invalid reply) config h = cc

validate-valid :
    (deps : ActionsDeps) (ip_client_id : String) (raw : Option ActionConfig) (table : Table)
    (config : TraefikConfigDeliveryConfig)
    → validate_delivery_config deps ip_client_id raw none table ≡ valid config
    → any
        (clashes ip_client_id config.traefik_provider_id none)
        (list_delivery_actions deps.account_id table)
      ≡ false
unfolding validate_delivery_config
validate-valid deps ip_client_id raw table config h =
    let actions = list_delivery_actions deps.account_id table in
    let provider_id = (raw_delivery raw).traefik_provider_id in
    let target : TraefikConfigDeliveryConfig = record {
      traefik_provider_id = provider_id;
      group = deps.trim (raw_delivery raw).group;
    } in
    let (e, n) =
      with_clash-valid target config (find (clashes ip_client_id provider_id none) actions) (
        guarded (not deps.has_providers) (not (nonempty provider_id))
          (not (deps.group_pattern target.group))
          (not (is_some (load_active deps.account_id provider_id table)))
          (refused 500 "traefik providers are not available")
          (refused 422 "config.traefikProviderId is required") (refused 422 "invalid_group")
          (refused 404 "traefik_provider_not_found")
          (with_clash target (find (clashes ip_client_id provider_id none) actions)) config h) in
    let same = ap (λ (c : TraefikConfigDeliveryConfig). c.traefik_provider_id) e in
    rw (sym same) (find-any (clashes ip_client_id provider_id none) actions n)

check_config-accepted :
    (deps : ActionsDeps) (ip_client_id : String) (body : AttachBody) (table : Table)
    (config : ActionConfig)
    → is_delivery body.action_type ≡ true
    → check_config deps ip_client_id body table ≡ accepted config
    → (target : TraefikConfigDeliveryConfig) × (config ≡ traefik target)
      × (validate_delivery_config deps ip_client_id body.config none table ≡ valid target)
unfolding check_config check_delivery
check_config-accepted deps ip_client_id body table config d h =
    elim (Bool-cases (device_is_gone (load_owned_ip_client deps.account_id ip_client_id table))) [
      | inl e ↦ cc (rw (d, e) at h)
      | inr e ↦
          check_delivery-accepted
            (validate_delivery_config deps ip_client_id body.config none table) config
            (rw (d, e) at h)
    ]

schedule_ids-table : (ids : List String) (w : ActionsWorld) → (schedule_ids ids w).table ≡ w.table
unfolding schedule_ids
schedule_ids-table [] w = refl
schedule_ids-table (id ∷ ids) w = refl

schedule_delivery-table :
    (deps : ActionsDeps) (targets : List String) (w : ActionsWorld)
    → (schedule_delivery deps targets w).table ≡ w.table
unfolding schedule_delivery
schedule_delivery-table deps targets w = elim (Bool-cases deps.has_snapshots) [
  | inl e ↦ rw e (schedule_ids-table (distinct targets) w)
  | inr e ↦ rw e refl
]

follow_attach-table :
    (deps : ActionsDeps) (action_id : String) (w : ActionsWorld)
    → (follow_attach deps action_id w).table ≡ w.table
unfolding follow_attach refresh_action
follow_attach-table deps action_id w =
    schedule_delivery-table deps _ (refresh_action deps action_id w)

module _ (deps : ActionsDeps) (ip_client_id action_id : String) (body : AttachBody) (now : String)
    (stamp : Stamp) (w : ActionsWorld)
    (can : CanWrite (action_stream deps.account_id action_id) stamp.ulid w.table)
    (fresh : contains (action_ids deps.account_id w.table) action_id ≡ false)
    (device : nonempty ip_client_id ≡ true)
    (delivery : body.action_type ≡ some traefik_config_delivery_action_type)
    (unclashing : IsUnclashing (list_delivery_actions deps.account_id w.table)) where
  empty_stream : 0 ≡ stream_length (action_stream deps.account_id action_id) w.table
  empty_stream =
      rw (read_stream-unlisted (action_stream deps.account_id action_id) w.table fresh) refl

  attach_checked-IsUnclashing :
      (action_type : String) (families : List AddressFamily) (check : ConfigCheck)
      → action_type ≡ traefik_config_delivery_action_type
      → check_config deps ip_client_id body w.table ≡ check
      → IsUnclashing (
          list_delivery_actions deps.account_id
            (attach_checked deps ip_client_id action_id action_type families now stamp w
              check).1.table)
  unfolding attach_checked store_action after_stored
  attach_checked-IsUnclashing action_type families (rejected reply) t e = unclashing
  attach_checked-IsUnclashing action_type families (check_thrown f) t e = unclashing
  attach_checked-IsUnclashing action_type families (accepted config) t e =
      let (target, same, v) =
        check_config-accepted deps ip_client_id body w.table config (rw delivery refl) e in
      rw
        (
          t,
          same,
          append-at deps ip_client_id action_id families target now stamp w.table can fresh device 0
              empty_stream,
          follow_attach-table deps action_id,
          list-stored deps ip_client_id action_id families target now stamp w.table can fresh
              device,
        )
        (IsUnclashing-append (list_delivery_actions deps.account_id w.table) _ unclashing
          (validate-valid deps ip_client_id body.config w.table target v))

  tests-IsUnclashing :
      (a b : Bool) (r1 r2 : ActionReply) (run : Result ActionReply × ActionsWorld)
      → IsUnclashing (list_delivery_actions deps.account_id run.1.table)
      → IsUnclashing (
          list_delivery_actions deps.account_id
            (if a then (ok r1, w) else if b then (ok r2, w) else run).1.table)
  tests-IsUnclashing true b r1 r2 run h = unclashing
  tests-IsUnclashing false true r1 r2 run h = unclashing
  tests-IsUnclashing false false r1 r2 run h = h

  -- Attaching a delivery action keeps it so that each device and provider have at most one delivery
  -- action, neither detached nor without a configuration: if that holds before, it holds after, where
  -- the event can be written, its id is not listed and the device is named.
  pub attach_action-IsUnclashing : IsUnclashing (
      list_delivery_actions deps.account_id
        (attach_action deps ip_client_id body action_id now stamp w).1.table)
  unfolding attach_action attached_families
  attach_action-IsUnclashing =
      tests-IsUnclashing
        (not (is_dns body.action_type)
          && not (is_firewall body.action_type)
          && not (is_delivery body.action_type))
        (no_family (attached_families body)) (refused 400 "unsupported action type")
        (refused 400 "addressFamilies must be a non-empty array of \"ipv4\"/\"ipv6\"")
        (attach_checked deps ip_client_id action_id (get_or body.action_type "")
          (attached_families body) now stamp w (check_config deps ip_client_id body w.table))
        (attach_checked-IsUnclashing (get_or body.action_type "") (attached_families body)
          (check_config deps ip_client_id body w.table) (rw delivery refl) refl)
