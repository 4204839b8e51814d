-- ===== src/ProviderStore.antt =====
-- backend/src/domain/traefik-provider/provider-store.ts. The mutex keeps the appends of this process
-- to one provider apart; what other processes write between the load and the insert of an attempt
-- is the argument `others`.
pub mod Retry
use fluxip.Base.{
  ℕ, zero, suc, ◌+◌, String, Bool, true, false, not, ◌&&◌, ◌||◌, Option, none, some, List, [], ◌∷◌,
  ◌==◌, ltb, opt_eq, truthy, if◌then◌else◌,
}
use fluxip.Event.{
  Payload, of_provider, StoredEvent, ReadStreamParams, Failure, concurrency_error, failure, Result,
  ok, err, CloudEventsConfig, Stamp, build_domain_event, append_input,
}
use fluxip.Event.Provider.{TraefikProviderEvent, traefik_provider_aggregate_type}
use fluxip.EventStore.{
  Table, Loaded, append, load_aggregate, list_aggregate_ids, resolve_account_id,
}
use fluxip.Aggregates.Provider.{
  TraefikProviderState, ProviderStatus, live, removed, initial_traefik_provider_state,
  traefik_provider_reducer,
}

abbrev pub provider_stream : String → String → ReadStreamParams
provider_stream account_id provider_id = record {
  account_id = account_id;
  aggregate_type = traefik_provider_aggregate_type;
  aggregate_id = provider_id;
}

unfoldable pub load : String → String → Table → Loaded TraefikProviderState
load account_id provider_id table =
    load_aggregate table (provider_stream account_id provider_id) initial_traefik_provider_state
      traefik_provider_reducer

unfoldable pub is_live : ProviderStatus → Bool
is_live live = true
is_live removed = false

unfoldable pub load_active : String → String → Table → Option (Loaded TraefikProviderState)
unfolding load is_live
load_active account_id provider_id table =
    let loaded = load account_id provider_id table in
    if not (truthy loaded.state.provider_id)
      || not (opt_eq loaded.state.account_id (some account_id))
      || not (is_live loaded.state.status)
    then none
    else some loaded

unfoldable pub resolve_account : String → Table → Option String
resolve_account provider_id table =
    resolve_account_id traefik_provider_aggregate_type provider_id table

list_live : String → Table → List String → List (Loaded TraefikProviderState)
unfolding load is_live
list_live account_id table [] = []
list_live account_id table (id ∷ ids) =
    let loaded = load account_id id table in
    let rest = list_live account_id table ids in
    if is_live loaded.state.status && truthy loaded.state.provider_id then loaded ∷ rest else rest

unfoldable pub list_active : String → Table → List (Loaded TraefikProviderState)
unfolding list_live
list_active account_id table = list_live account_id table (
    list_aggregate_ids
      (record { account_id = account_id; aggregate_type = traefik_provider_aggregate_type }) table)

abbrev pub is_concurrency_error : Failure → Bool
is_concurrency_error (concurrency_error _ _ _) = true
is_concurrency_error (failure _) = false

-- One pass of the loop in `append`: the load, then the insert into what the others left.
unfoldable pub attempt_append :
    CloudEventsConfig
    → String
    → String
    → TraefikProviderEvent
    → Stamp
    → (Table → Table)
    → Table
    → Result StoredEvent × Table
unfolding load
attempt_append config account_id provider_id event stamp others table =
    append
      (append_input (provider_stream account_id provider_id)
        ((load account_id provider_id table).version + 1)
        (build_domain_event config traefik_provider_aggregate_type (of_provider event) stamp))
      (others table)

-- The `try` of one pass: a concurrency error of the first pass goes round again.
after_attempt :
    Result StoredEvent × Table
    → ℕ
    → (Table → Option (Result StoredEvent × Table))
    → Option (Result StoredEvent × Table)
after_attempt (ok e, after) attempt again = some (ok e, after)
after_attempt (err f, after) attempt again =
    if is_concurrency_error f && ltb attempt 1 then again after else some (err f, after)

-- The loop `for (let attempt = 0; ; attempt++)` on fuel; `none` is fuel that ran out.
unfoldable pub append_loop :
    ℕ
    → ℕ
    → CloudEventsConfig
    → String
    → String
    → TraefikProviderEvent
    → (ℕ → Stamp)
    → (ℕ → Table → Table)
    → Table
    → Option (Result StoredEvent × Table)
unfolding after_attempt
append_loop zero attempt config account_id provider_id event stamps others table = none
append_loop (suc fuel) attempt config account_id provider_id event stamps others table =
    after_attempt
      (attempt_append config account_id provider_id event (stamps attempt) (others attempt) table)
      attempt (append_loop fuel (attempt + 1) config account_id provider_id event stamps others)

-- `ProviderStore.append` while nobody else writes to the table.
unfoldable pub append_alone :
    CloudEventsConfig
    → String
    → String
    → TraefikProviderEvent
    → Stamp
    → Table
    → Result StoredEvent × Table
append_alone config account_id provider_id event stamp table =
    attempt_append config account_id provider_id event stamp (λ t. t) table
