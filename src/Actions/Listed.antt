-- ===== src/Actions/Listed.antt =====
-- The delivery actions of an account after the event that attaches one.
use fluxip.Base.{
  ◌≡◌, refl, ap, ◌∙◌, ℕ, String, true, false, Option, none, some, List, [], ◌∷◌, ◌++◌, ◌==◌, eq_iff,
  arith, contains, nonempty,
}
use fluxip.Event.{Payload, Stamp, ok}
use fluxip.Event.Action.{
  AddressFamily, traefik, TraefikConfigDeliveryConfig, traefik_config_delivery_action_type,
}
use fluxip.EventStore.{Table, Loaded}
use fluxip.EventStore.Append.{stream_length}
use fluxip.EventStore.Commands.{
  append_next, CanWrite, append_next_ok, load_next, load_other, next_row, next_row-other,
  next_row-payload, list_aggregate_ids-next,
}
use fluxip.Aggregates.Action.{
  ActionState, is_enabled, fold_action, initial_action_state, action_reducer,
}
use fluxip.Devices.Delivery.{
  DeliveryAction, action_state, action_ids, delivery_of, collect, push_found, list_delivery_actions,
}
use fluxip.Actions.{ActionsDeps}
use fluxip.Actions.Routes.{action_stream, attached_event}

push_found-append :
    {A : Type 0} (o : Option A) (xs ys : List A) → push_found o (xs ++ ys) ≡ push_found o xs ++ ys
push_found-append none xs ys = refl
push_found-append (some a) xs ys = refl

collect-append :
    {A : Type 0} (f : String → Option A) (ids : List String) (id : String)
    → collect f (ids ++ id ∷ []) ≡ collect f ids ++ push_found (f id) []
collect-append f [] id = refl
collect-append f (j ∷ ids) id =
    ap (push_found (f j)) (collect-append f ids id)
    ∙ push_found-append (f j) (collect f ids) (push_found (f id) [])

module _ (deps : ActionsDeps) (ip_client_id action_id : String) (families : List AddressFamily)
    (config : TraefikConfigDeliveryConfig) (now : String) (stamp : Stamp) (table : Table)
    (can : CanWrite (action_stream deps.account_id action_id) stamp.ulid table)
    (fresh : contains (action_ids deps.account_id table) action_id ≡ false)
    (device : nonempty ip_client_id ≡ true) where
  abbrev event : Payload
  event =
      attached_event deps ip_client_id action_id traefik_config_delivery_action_type families
        (traefik config) now

  abbrev pub stored : Table
  stored =
      table ++ next_row deps.config (action_stream deps.account_id action_id) event stamp table ∷ []

  state-other :
      (j : String)
      → (action_id == j) ≡ false
      → action_state stored deps.account_id j ≡ action_state table deps.account_id j
  unfolding action_state
  state-other j h =
      ap (λ (l : Loaded ActionState). l.state)
        (load_other (action_stream deps.account_id j) _ table initial_action_state action_reducer (
          next_row-other deps.config (action_stream deps.account_id action_id) event stamp table
            (action_stream deps.account_id j) (ground arith)))

  state-own :
      action_state stored deps.account_id action_id
      ≡ fold_action (action_state table deps.account_id action_id) event
  unfolding action_state action_reducer
  state-own =
      load_next deps.config (action_stream deps.account_id action_id) event stamp table can
        initial_action_state action_reducer
      ∙ ap (fold_action (action_state table deps.account_id action_id))
          (next_row-payload deps.config (action_stream deps.account_id action_id) event stamp table)

  pub append-at :
      (n : ℕ)
      → n ≡ stream_length (action_stream deps.account_id action_id) table
      → append_next deps.config (action_stream deps.account_id action_id) n event stamp table ≡ (
        ok (next_row deps.config (action_stream deps.account_id action_id) event stamp table),
        stored,
      )
  append-at n e =
      rw e
        (append_next_ok deps.config (action_stream deps.account_id action_id) event stamp table can)

  abbrev pub new_delivery : DeliveryAction
  new_delivery = record {
    action_id = action_id;
    ip_client_id = ip_client_id;
    traefik_provider_id = config.traefik_provider_id;
    group = config.group;
    status = is_enabled;
  }

  delivery-own :
      delivery_of action_id (action_state stored deps.account_id action_id) ≡ some new_delivery
  unfolding delivery_of fold_action
  delivery-own = rw (state-own, device) refl

  collect-stored :
      (ids : List String)
      → contains ids action_id ≡ false
      → collect (λ j. delivery_of j (action_state stored deps.account_id j)) ids
        ≡ collect (λ j. delivery_of j (action_state table deps.account_id j)) ids
  collect-stored [] h = refl
  collect-stored (j ∷ ids) h =
      rw
        (
          state-other j (ground (arith, eq_iff j action_id, eq_iff action_id j)),
          collect-stored ids (ground arith),
        )
        refl

  pub list-stored :
      list_delivery_actions deps.account_id stored
      ≡ list_delivery_actions deps.account_id table ++ new_delivery ∷ []
  unfolding list_delivery_actions
  list-stored =
      rw
        (
          list_aggregate_ids-next deps.config (action_stream deps.account_id action_id) event stamp
              table,
          fresh,
          collect-append (λ j. delivery_of j (action_state stored deps.account_id j))
              (action_ids deps.account_id table) action_id,
          collect-stored (action_ids deps.account_id table) fresh,
          delivery-own,
        )
        refl
