-- ===== src/Devices/Delivery.antt =====
-- backend/src/domain/traefik-provider/delivery-actions.ts
pub mod Targets
use fluxip.Base.{
  ◌||◌, String, Bool, true, false, not, Option, none, some, List, [], ◌∷◌, map, ◌==◌, filter,
  opt_eq, nonempty, if◌then◌else◌, distinct,
}
use fluxip.Event.Action.{
  ActionConfig, traefik, TraefikConfigDeliveryConfig, action_aggregate_type,
  traefik_config_delivery_action_type,
}
use fluxip.EventStore.{Table, load_aggregate, list_aggregate_ids}
use fluxip.Aggregates.Action.{
  ActionState, ActionStatus, is_detached, initial_action_state, action_reducer,
}

pub record DeliveryAction : Type 0 where
  pub action_id : String
  pub ip_client_id : String
  pub traefik_provider_id : String
  pub group : String
  pub status : ActionStatus

-- The state that the replay of an action gives.
unfoldable pub action_state : Table → String → String → ActionState
action_state table account_id action_id =
    (load_aggregate table
      (record {
        account_id = account_id;
        aggregate_type = action_aggregate_type;
        aggregate_id = action_id;
      })
      initial_action_state action_reducer).state

abbrev pub action_ids : String → Table → List String
action_ids account_id table =
    list_aggregate_ids (record { account_id = account_id; aggregate_type = action_aggregate_type })
      table

abbrev pub detached_status : ActionStatus → Bool
detached_status is_detached = true
detached_status _ = false

-- `state.config as TraefikConfigDeliveryConfig`: the fields that another configuration lacks are
-- read as the empty text.
abbrev pub as_delivery : ActionConfig → TraefikConfigDeliveryConfig
as_delivery (traefik config) = config
as_delivery _ = record { traefik_provider_id = ""; group = "" }

unfoldable pub delivery_with :
    String → ActionState → Option String → Option ActionConfig → Option DeliveryAction
delivery_with action_id state none _ = none
delivery_with action_id state (some ip_client_id) none = none
delivery_with action_id state (some ip_client_id) (some config) =
    if not (nonempty ip_client_id)
    then none
    else some (record {
      action_id = action_id;
      ip_client_id = ip_client_id;
      traefik_provider_id = (as_delivery config).traefik_provider_id;
      group = (as_delivery config).group;
      status = state.status;
    })

-- One pass of the loop: what it pushes, or nothing where it continues.
unfoldable pub delivery_of : String → ActionState → Option DeliveryAction
unfolding delivery_with
delivery_of action_id state =
    if not (opt_eq state.action_type (some traefik_config_delivery_action_type))
      || detached_status state.status
    then none
    else delivery_with action_id state state.ip_client_id state.config

abbrev pub push_found : {A : Type 0} → Option A → List A → List A
push_found none rest = rest
push_found (some a) rest = a ∷ rest

abbrev pub collect : {A : Type 0} → (String → Option A) → List String → List A
collect f [] = []
collect f (id ∷ ids) = push_found (f id) (collect f ids)

unfoldable pub list_delivery_actions : String → Table → List DeliveryAction
unfolding delivery_of
list_delivery_actions account_id table =
    collect (λ action_id. delivery_of action_id (action_state table account_id action_id))
      (action_ids account_id table)

unfoldable pub providers_of_device : String → String → Table → List String
unfolding list_delivery_actions distinct
providers_of_device account_id ip_client_id table = distinct (
    map (λ (a : DeliveryAction). a.traefik_provider_id)
      (filter (λ (a : DeliveryAction). a.ip_client_id == ip_client_id)
        (list_delivery_actions account_id table)))
