-- ===== src/Deliveries.antt =====
-- backend/src/domain/traefik-provider/delivery-history.ts: what an address change led to, for the
-- delivery actions of a device. A map from changes to their rows is kept in the order of insertion.
pub mod Rows
pub mod Status
use fluxip.Base.{
  ℕ, String, Bool, true, false, not, ◌&&◌, Option, none, some, List, [], ◌∷◌, ◌++◌, Map, lookup,
  put, find, filter, last, leb, nat_eq, is_some, get_or, map, contains, distinct, if◌then◌else◌,
}
use fluxip.Event.{Payload, of_provider, StoredEvent}
use fluxip.Event.Provider.{
  snapshot_applied, snapshot_apply_failed, snapshot_published, snapshot_publish_failed,
  PublishFailureReason, too_large, internal, TraefikProviderSnapshotAppliedData,
  TraefikProviderSnapshotApplyFailedData, TraefikProviderSnapshotPublishedData,
}
use fluxip.EventStore.{order_by_sequence}

pub data DeliveryKind : Type 0 where
  delivered combined : DeliveryKind

pub data DeliveryStage : Type 0 where
  published applied failed : DeliveryStage

pub record DeliveryActionRef : Type 0 where
  pub action_id : String
  pub traefik_provider_id : String
  pub group : String

pub record DeliveryProvider : Type 0 where
  pub name : Option String
  pub events : List StoredEvent

pub record TraefikDelivery : Type 0 where
  pub action_id : String
  pub traefik_provider_id : String
  pub provider_name : Option String
  pub group : String
  pub kind : DeliveryKind
  pub stage : Option DeliveryStage
  pub at : Option String
  pub error : Option String
  pub version : Option ℕ

abbrev pub applied_of : Payload → Option TraefikProviderSnapshotAppliedData
applied_of (of_provider (snapshot_applied d)) = some d
applied_of _ = none

abbrev pub apply_failed_of : Payload → Option TraefikProviderSnapshotApplyFailedData
apply_failed_of (of_provider (snapshot_apply_failed d)) = some d
apply_failed_of _ = none

push_event : {A : Type 0} → Option A → List A → List A
push_event none rest = rest
push_event (some a) rest = a ∷ rest

all_of : {A : Type 0} → (Payload → Option A) → List StoredEvent → List A
unfolding push_event
all_of f [] = []
all_of f (e ∷ es) = push_event (f e.payload) (all_of f es)

abbrev pub reason_text : PublishFailureReason → String
reason_text too_large = "too_large"
reason_text internal = "internal"

-- `stage`, `at` and `error` of a published snapshot.
pub record Stage : Type 0 where
  pub stage : Option DeliveryStage
  pub at : Option String
  pub error : Option String

stage_of :
    TraefikProviderSnapshotPublishedData
    → Option TraefikProviderSnapshotAppliedData
    → Option TraefikProviderSnapshotApplyFailedData
    → Stage
stage_of d (some done) _ = record { stage = some applied; at = some done.applied_at; error = none }
stage_of d none (some f) = record {
  stage = some failed;
  at = some f.applied_at;
  error = some f.reason;
}
stage_of d none none = record { stage = some published; at = some d.published_at; error = none }

-- A row that an event asks for, with the change that it names.
abbrev pub Named : Type 0
Named = String × TraefikDelivery

delivery_row :
    DeliveryActionRef → DeliveryProvider → DeliveryKind → Stage → Option ℕ → TraefikDelivery
delivery_row action provider kind stage version = record {
  action_id = action.action_id;
  traefik_provider_id = action.traefik_provider_id;
  provider_name = provider.name;
  group = action.group;
  kind = kind;
  stage = stage.stage;
  at = stage.at;
  error = stage.error;
  version = version;
}

no_stage : Stage
no_stage = record { stage = none; at = none; error = none }

-- The calls of `put` that one event makes, in order.
rows_of_event : DeliveryActionRef → DeliveryProvider → List StoredEvent → ℕ → Payload → List Named
unfolding delivery_row no_stage stage_of all_of
rows_of_event action provider events n (of_provider (snapshot_published d)) =
    let done =
      find (λ (a : TraefikProviderSnapshotAppliedData). leb n a.version)
        (all_of applied_of events) in
    let broken = last (
      filter (λ (f : TraefikProviderSnapshotApplyFailedData). nat_eq f.version n)
        (all_of apply_failed_of events)) in
    (d.correlation_id, delivery_row action provider delivered (stage_of d done broken) (some n))
    ∷ map (λ (id : String). (id, delivery_row action provider combined no_stage (some n)))
        d.absorbed_causation_ids
rows_of_event action provider events n (of_provider (snapshot_publish_failed d)) =
    (
      d.correlation_id,
      delivery_row action provider delivered
          (record {
            stage = some failed;
            at = some d.failed_at;
            error = some (reason_text d.reason);
          })
          none,
    )
    ∷ map (λ (id : String). (id, delivery_row action provider combined no_stage none))
        d.absorbed_causation_ids
rows_of_event action provider events n _ = []

unfoldable pub named_rows :
    DeliveryActionRef → DeliveryProvider → List StoredEvent → List StoredEvent → List Named
unfolding rows_of_event
named_rows action provider events [] = []
named_rows action provider events (e ∷ es) =
    rows_of_event action provider events e.sequence_number e.payload
    ++ named_rows action provider events es

abbrev pub is_delivered : DeliveryKind → Bool
is_delivered delivered = true
is_delivered combined = false

unfoldable pub keeps_delivered : Option TraefikDelivery → DeliveryKind → Bool
keeps_delivered none kind = false
keeps_delivered (some old) kind = is_delivered old.kind && not (is_delivered kind)

-- `put`: a change that is not asked for is left out, and "delivered" beats "combined".
unfoldable pub put_row : (String → Bool) → Map TraefikDelivery → Named → Map TraefikDelivery
unfolding keeps_delivered
put_row wanted rows (change_id, row) =
    let stored = put change_id row rows in
    if not (wanted change_id)
    then rows
    else if keeps_delivered (lookup change_id rows) row.kind
    then rows
    else stored

unfoldable pub put_rows : (String → Bool) → Map TraefikDelivery → List Named → Map TraefikDelivery
unfolding put_row
put_rows wanted rows [] = rows
put_rows wanted rows (n ∷ ns) = put_rows wanted (put_row wanted rows n) ns

unfoldable pub rows_for :
    (String → Bool) → DeliveryActionRef → Option DeliveryProvider → Map TraefikDelivery
unfolding named_rows put_rows
rows_for wanted action none = []
rows_for wanted action (some provider) =
    let events = order_by_sequence provider.events in
    put_rows wanted [] (named_rows action provider events events)

-- The rows of one action are pushed behind those that are there.
push_rows : Map TraefikDelivery → Map (List TraefikDelivery) → Map (List TraefikDelivery)
push_rows [] result = result
push_rows ((change_id, row) ∷ rows) result =
    push_rows rows (put change_id (get_or (lookup change_id result) [] ++ row ∷ []) result)

derive_from :
    (String → Bool)
    → (String → Option DeliveryProvider)
    → List DeliveryActionRef
    → Map (List TraefikDelivery)
    → Map (List TraefikDelivery)
unfolding rows_for push_rows
derive_from wanted providers [] result = result
derive_from wanted providers (action ∷ actions) result =
    derive_from wanted providers actions
      (push_rows (rows_for wanted action (providers action.traefik_provider_id)) result)

initial_rows : List String → Map (List TraefikDelivery)
initial_rows ids = map (λ (id : String). (id, [])) (distinct ids)

unfoldable pub derive_deliveries :
    List String
    → List DeliveryActionRef
    → (String → Option DeliveryProvider)
    → Map (List TraefikDelivery)
unfolding derive_from initial_rows
derive_deliveries ids actions providers =
    derive_from (contains ids) providers actions (initial_rows ids)
