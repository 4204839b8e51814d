-- ===== src/Agent/Coordinator/Trace.antt =====
-- Histories of the coordinator: a sequence of calls, the publisher's arguments that they lead to,
-- and what each provider was triggered for.
use fluxip.Base.{
  String, ◌≡◌, ◌⊎◌, Bool, true, false, Option, none, some, List, [], ◌∷◌, ◌++◌, ◌==◌, if◌then◌else◌,
  lookup, contains,
}
use fluxip.Agent.Coordinator.{
  Pending, SnapshotCoordinator, new_coordinator, pushed, schedule, PublishCall, run_start, run_end,
}

-- What the coordinator is asked to do, and the timers and runs of the event loop.
pub data Op : Type 0 where
  trigger : String → List String → Option String → Op
  fire : String → Op
  finish : String → Op

-- The coordinator with the calls that it made so far.
pub record Trace : Type 0 where
  pub coordinator : SnapshotCoordinator
  pub calls : List PublishCall

abbrev pub start : Trace
start = record { coordinator = new_coordinator; calls = [] }

logged : Option PublishCall → List PublishCall → List PublishCall
logged none calls = calls
logged (some call) calls = calls ++ call ∷ []

unfoldable pub step : Op → Trace → Trace
unfolding logged
step (trigger account_id provider_ids causation_id) t = record t {
  coordinator = schedule account_id provider_ids causation_id t.coordinator;
}
step (fire p) t =
    let (c, call) = run_start p t.coordinator in
    record { coordinator = c; calls = logged call t.calls }
step (finish p) t = record t { coordinator = run_end p t.coordinator }

unfoldable pub run_all : List Op → Trace → Trace
unfolding step
run_all [] t = t
run_all (o ∷ os) t = run_all os (step o t)

-- The causes that one call names: the absorbed ones, then the correlation id.
abbrev pub named_by : PublishCall → List String
named_by call =
    call.absorbed_causation_ids ++ elim call.causation_id [ none ↦ [] | some c ↦ c ∷ [] ]

unfoldable pub handed : String → List PublishCall → List String
handed p [] = []
handed p (call ∷ calls) =
    let rest = handed p calls in if call.provider_id == p then named_by call ++ rest else rest

abbrev pub waiting_in : Option Pending → List String
waiting_in none = []
waiting_in (some entry) = entry.causation_ids

abbrev pub waiting : String → SnapshotCoordinator → List String
waiting p c = waiting_in (lookup p c.pending)

-- The causes of the triggers that name the provider, each trigger once.
abbrev pub caused_by : String → Op → List String
caused_by p (trigger _ provider_ids causation_id) =
    if contains provider_ids p then pushed causation_id else []
caused_by p (fire _) = []
caused_by p (finish _) = []

unfoldable pub triggered : String → List Op → List String
triggered p [] = []
triggered p (o ∷ os) = caused_by p o ++ triggered p os

-- An entry waits for its timer or runs, and what came in during a run has marked it dirty.
abbrev pub IsLive : Option Pending → Type 0
IsLive none = Unit
IsLive (some e) =
    ((e.timer ≡ true) × (e.running ≡ false))
    ⊎ ((e.timer ≡ false) × (e.running ≡ true) × ((e.dirty ≡ true) ⊎ (e.causation_ids ≡ [])))

pub record IsSound (c : SnapshotCoordinator) : Type 0 where
  pub alive : (p : String) → IsLive (lookup p c.pending)
  pub going : c.stopped ≡ false

abbrev pub timer_set : Option Pending → Bool
timer_set none = false
timer_set (some entry) = entry.timer

abbrev pub in_progress : Option Pending → Bool
in_progress none = false
in_progress (some entry) = entry.running

-- A timer fires only while it is set, and a run ends only while it runs.
abbrev pub Allowed : Op → SnapshotCoordinator → Type 0
Allowed (trigger _ _ _) c = Unit
Allowed (fire p) c = timer_set (lookup p c.pending) ≡ true
Allowed (finish p) c = in_progress (lookup p c.pending) ≡ true

abbrev pub AllAllowed : List Op → Trace → Type 0
AllAllowed [] t = Unit
AllAllowed (o ∷ os) t = Allowed o t.coordinator × AllAllowed os (step o t)

-- What was handed over or waits, for one provider.
abbrev pub accounted : String → Trace → List String
accounted p t = handed p t.calls ++ waiting p t.coordinator
