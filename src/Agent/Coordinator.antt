-- ===== src/Agent/Coordinator.antt =====
-- backend/src/adapters/agent-grpc/snapshot-coordinator.ts. A timer is whether one is set; what runs
-- between two awaits is one function, so an interleaving of the event loop is a sequence of calls.
-- A call of the publisher is the result of `run_start`, and its answer comes in with `run_end`.
pub mod Trace
pub mod Entries
pub mod Causes
use fluxip.Base.{
  ℕ, String, Bool, true, false, not, ◌&&◌, Option, none, some, List, [], ◌∷◌, ◌++◌, if◌then◌else◌,
  get_or, truthy, Map, lookup, put, remove, distinct, last, init,
}

pub record Pending : Type 0 where
  pub account_id : String
  pub causation_ids : List String
  pub timer : Bool
  pub running : Bool
  pub dirty : Bool

pub record SnapshotCoordinator : Type 0 where
  pub pending : Map Pending
  pub stopped : Bool

abbrev pub new_coordinator : SnapshotCoordinator
new_coordinator = record { pending = []; stopped = false }

abbrev pub fresh_pending : String → Pending
fresh_pending account_id = record {
  account_id = account_id;
  causation_ids = [];
  timer = false;
  running = false;
  dirty = false;
}

-- `if (causationId) entry.causationIds.push(causationId)`
abbrev pub pushed : Option String → List String
pushed none = []
pushed (some c) = if truthy (some c) then c ∷ [] else []

-- The body of the loop of `schedule` on one entry.
unfoldable pub schedule_entry : String → Option String → Option Pending → Pending
schedule_entry account_id causation_id found =
    let entry = get_or found (fresh_pending account_id) in
    let entry = record entry {
      account_id = account_id;
      causation_ids = entry.causation_ids ++ pushed causation_id;
    } in
    if entry.running
    then record entry { dirty = true }
    else if not entry.timer
    then record entry { timer = true }
    else entry

unfoldable pub schedule_all : String → Option String → List String → Map Pending → Map Pending
unfolding schedule_entry
schedule_all account_id causation_id [] m = m
schedule_all account_id causation_id (p ∷ ps) m =
    schedule_all account_id causation_id ps
      (put p (schedule_entry account_id causation_id (lookup p m)) m)

unfoldable pub schedule :
    String → List String → Option String → SnapshotCoordinator → SnapshotCoordinator
schedule account_id provider_ids causation_id c = if c.stopped then c else record c {
  pending = schedule_all account_id causation_id (distinct provider_ids) c.pending;
}

-- The arguments of a call of the publisher.
pub record PublishCall : Type 0 where
  pub account_id : String
  pub provider_id : String
  pub causation_id : Option String
  pub absorbed_causation_ids : List String

abbrev pub taken : Pending → Pending
taken entry = record entry { timer = false; running = true; dirty = false; causation_ids = [] }

abbrev pub call_of : String → Pending → PublishCall
call_of provider_id entry = record {
  account_id = entry.account_id;
  provider_id = provider_id;
  causation_id = last entry.causation_ids;
  absorbed_causation_ids = init entry.causation_ids;
}

run_found : String → Option Pending → SnapshotCoordinator → SnapshotCoordinator × Option PublishCall
run_found provider_id none c = (c, none)
run_found provider_id (some entry) c = if c.stopped then (c, none) else (
  record c { pending = put provider_id (taken entry) c.pending },
  some (call_of provider_id entry),
)

-- `run` up to its call of the publisher.
unfoldable pub run_start : String → SnapshotCoordinator → SnapshotCoordinator × Option PublishCall
unfolding run_found
run_start provider_id c = run_found provider_id (lookup provider_id c.pending) c

end_found : String → Option Pending → SnapshotCoordinator → SnapshotCoordinator
end_found provider_id none c = c
end_found provider_id (some entry) c =
    if entry.dirty && not c.stopped
    then record c {
      pending = put provider_id (record entry { running = false; timer = true }) c.pending;
    }
    else record c { pending = remove provider_id c.pending }

-- The `finally` of `run`. Once stopped, `pending` is empty, and the entry that the run still holds
-- is in no map.
unfoldable pub run_end : String → SnapshotCoordinator → SnapshotCoordinator
unfolding end_found
run_end provider_id c = end_found provider_id (lookup provider_id c.pending) c

unfoldable pub stop : SnapshotCoordinator → SnapshotCoordinator
stop c = record { pending = []; stopped = true }
