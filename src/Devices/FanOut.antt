-- ===== src/Devices/FanOut.antt =====
-- backend/src/adapters/queue-bullmq/execution-fanout-worker.ts. The jobs are the calls of the
-- queue's `add`, in order.
use Prim.Native.String.{◌++◌}
use fluxip.Base.{
  ◌≡◌, refl, ◌||◌, ◌&&◌, String, Bool, true, false, not, none, some, List, [], ◌∷◌, map, opt_eq,
  if◌then◌else◌, contains, NoRepeats, inl, inr, Bool-cases, distinct-NoRepeats, NoRepeats-filter,
  contains-filter, filter, ap, ◌≢◌, ◌↔◌, opt_eq_iff, arith,
}
use fluxip.Event.Action.{IpValues, traefik_config_delivery_action_type}
use fluxip.Event.Execution.{TriggeredBy}
use fluxip.EventStore.{Table, list_aggregate_ids}
use fluxip.Aggregates.Action.{ActionState, ActionStatus, is_enabled, is_disabled, is_detached}
use fluxip.Devices.Delivery.{action_state, action_ids, collect}

pub record FanOutParams : Type 0 where
  pub account_id : String
  pub ip_client_id : String
  pub causation_event_id : String
  pub triggered_by : TriggeredBy
  pub ip_values : IpValues

pub record ExecutionJob : Type 0 where
  pub job_id : String
  pub account_id : String
  pub execution_id : String
  pub action_id : String
  pub ip_client_id : String
  pub causation_event_id : String
  pub triggered_by : TriggeredBy
  pub ip_values : IpValues

abbrev pub enabled_status : ActionStatus → Bool
enabled_status is_enabled = true
enabled_status _ = false

-- Neither `continue` of the loop is taken.
unfoldable pub runs : FanOutParams → ActionState → Bool
runs params state =
    not (
      not (opt_eq state.ip_client_id (some params.ip_client_id))
      || not (enabled_status state.status))
    && not (opt_eq state.action_type (some traefik_config_delivery_action_type))

unfoldable pub job_of : FanOutParams → (String → String) → String → ExecutionJob
job_of params ulids action_id = record {
  job_id = "exec-" ++ params.causation_event_id ++ "-" ++ action_id;
  account_id = params.account_id;
  execution_id = ulids action_id;
  action_id = action_id;
  ip_client_id = params.ip_client_id;
  causation_event_id = params.causation_event_id;
  triggered_by = params.triggered_by;
  ip_values = params.ip_values;
}

-- `ulids` gives the new ULID that the pass for an action draws.
unfoldable pub fan_out_action_executions :
    FanOutParams → (String → String) → Table → List ExecutionJob
unfolding runs job_of
fan_out_action_executions params ulids table =
    collect
      (λ action_id.
        if runs params (action_state table params.account_id action_id)
        then some (job_of params ulids action_id)
        else none)
      (action_ids params.account_id table)

-- The jobs' actions are the listed ids that pass, in the order of the list.
actions-collect :
    (params : FanOutParams) (ulids : String → String) (p : String → Bool) (ids : List String)
    → map
        (λ (j : ExecutionJob). j.action_id)
        (collect (λ id. if p id then some (job_of params ulids id) else none) ids)
      ≡ filter p ids
unfolding job_of
actions-collect params ulids p [] = refl
actions-collect params ulids p (id ∷ ids) = elim (Bool-cases (p id)) [
  | inl e ↦ rw e (ap (λ (rest : List String). id ∷ rest) (actions-collect params ulids p ids))
  | inr e ↦ rw e (actions-collect params ulids p ids)
]

job_ids-collect :
    (params : FanOutParams) (ulids others : String → String) (p : String → Bool) (ids : List String)
    → map
        (λ (j : ExecutionJob). j.job_id)
        (collect (λ id. if p id then some (job_of params ulids id) else none) ids)
      ≡ map
          (λ (j : ExecutionJob). j.job_id)
          (collect (λ id. if p id then some (job_of params others id) else none) ids)
unfolding job_of
job_ids-collect params ulids others p [] = refl
job_ids-collect params ulids others p (id ∷ ids) = elim (Bool-cases (p id)) [
  | inl e ↦ rw e (
      ap (λ (rest : List String). (job_of params ulids id).job_id ∷ rest)
        (job_ids-collect params ulids others p ids))
  | inr e ↦ rw e (job_ids-collect params ulids others p ids)
]

is_enabled_iff : (status : ActionStatus) → (enabled_status status ≡ true) ↔ (status ≡ is_enabled)
is_enabled_iff is_enabled = ground arith
is_enabled_iff is_disabled = ground arith
is_enabled_iff is_detached = ground arith

runs_iff :
    (params : FanOutParams) (state : ActionState)
    → (runs params state ≡ true) ↔ (
        (state.ip_client_id ≡ some params.ip_client_id)
        × (state.status ≡ is_enabled)
        × (state.action_type ≢ some traefik_config_delivery_action_type))
unfolding runs
runs_iff params state = ground (
  arith,
  opt_eq_iff state.ip_client_id (some params.ip_client_id),
  opt_eq_iff state.action_type (some traefik_config_delivery_action_type),
  is_enabled_iff state.status,
)

-- The fan-out adds one job for each action of the account that is on the device, enabled and no
-- Traefik delivery, and no other job; and a second fan-out for the same cause adds the same job ids
-- in the same order, whatever ULIDs it draws.
pub fan_out_action_executions_lem :
    (params : FanOutParams) (ulids others : String → String) (table : Table) (action_id : String)
    → let jobs = fan_out_action_executions params ulids table in
      let actions = map (λ (j : ExecutionJob). j.action_id) jobs in
      let state = action_state table params.account_id action_id in
      NoRepeats actions
      × ((contains actions action_id ≡ true) ↔ (
          (contains (action_ids params.account_id table) action_id ≡ true)
          × (state.ip_client_id ≡ some params.ip_client_id)
          × (state.status ≡ is_enabled)
          × (state.action_type ≢ some traefik_config_delivery_action_type)))
      × (map (λ (j : ExecutionJob). j.job_id) jobs
          ≡ map (λ (j : ExecutionJob). j.job_id) (fan_out_action_executions params others table))
unfolding fan_out_action_executions list_aggregate_ids
fan_out_action_executions_lem params ulids others table action_id =
    let p : String → Bool = λ id. runs params (action_state table params.account_id id) in
    let ids = action_ids params.account_id table in
    let same : map (λ (j : ExecutionJob). j.action_id)
          (fan_out_action_executions params ulids table)
        ≡ filter p ids =
      actions-collect params ulids p ids in
    let due = runs_iff params (action_state table params.account_id action_id) in
    (
      rw same (NoRepeats-filter p ids (distinct-NoRepeats _)),
      rw same (rw (contains-filter p ids action_id) (ground (arith, due))),
      job_ids-collect params ulids others p ids,
    )
