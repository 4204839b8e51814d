-- ===== src/EventStore.antt =====
-- backend/src/adapters/event-store-postgres/postgres-event-store.ts, over the table that the
-- migrations beside it create, and `loadAggregate` of backend/src/domain/replay.ts. The table is
-- the list of its rows in the order of their insertion; the statements of the code mean what SQL
-- says they mean on such a list.
pub mod Order
pub mod Streams
pub mod Consistency
pub mod Append
pub mod History
pub mod Replay
pub mod Commands
use fluxip.Base.{
  ℕ, String, Bool, ◌||◌, ◌&&◌, Option, none, some, List, [], ◌∷◌, ◌++◌, map, ◌==◌, nat_eq, leb,
  if◌then◌else◌, any, filter, find, length, not, distinct,
}
use mathlib.Core.List.{foldl}
use fluxip.Event.{
  StoredEvent, AppendEventInput, ReadStreamParams, ListAggregateIdsParams, concurrency_error,
  Result, ok, err,
}

abbrev pub Table : Type 0
Table = List StoredEvent

-- The row that `append` inserts, as `mapRow` returns it.
unfoldable pub row_of : AppendEventInput → StoredEvent
row_of input = record {
  id = input.id;
  aggregate_type = input.aggregate_type;
  aggregate_id = input.aggregate_id;
  sequence_number = input.expected_sequence_number;
  account_id = input.account_id;
  type = input.type;
  source = input.source;
  time = input.time;
  payload = input.payload;
}

-- `PRIMARY KEY (id)` and `UNIQUE (aggregate_type, aggregate_id, sequence_number)`: a row that an
-- insert of `new` collides with (error code 23505).
unfoldable pub collides : StoredEvent → StoredEvent → Bool
collides new row =
    row.id == new.id
    || (row.aggregate_type == new.aggregate_type
        && row.aggregate_id == new.aggregate_id
        && nat_eq row.sequence_number new.sequence_number)

unfoldable pub append : AppendEventInput → Table → Result StoredEvent × Table
unfolding row_of collides
append input table =
    if any (collides (row_of input)) table
    then (
      err (
          concurrency_error input.aggregate_type input.aggregate_id input.expected_sequence_number),
      table,
    )
    else (ok (row_of input), table ++ row_of input ∷ [])

-- `WHERE account_id = $1 AND aggregate_type = $2 AND aggregate_id = $3`
unfoldable pub in_stream : ReadStreamParams → StoredEvent → Bool
in_stream p row =
    row.account_id == p.account_id
    && row.aggregate_type == p.aggregate_type
    && row.aggregate_id == p.aggregate_id

-- `ORDER BY sequence_number ASC`
unfoldable pub insert_by_sequence : StoredEvent → List StoredEvent → List StoredEvent
insert_by_sequence e [] = e ∷ []
insert_by_sequence e (x ∷ xs) =
    let later = x ∷ insert_by_sequence e xs in
    if leb e.sequence_number x.sequence_number then e ∷ x ∷ xs else later

unfoldable pub order_by_sequence : List StoredEvent → List StoredEvent
unfolding insert_by_sequence
order_by_sequence [] = []
order_by_sequence (e ∷ es) = insert_by_sequence e (order_by_sequence es)

unfoldable pub read_stream : ReadStreamParams → Table → List StoredEvent
unfolding in_stream order_by_sequence
read_stream p table = order_by_sequence (filter (in_stream p) table)

unfoldable pub in_account : ListAggregateIdsParams → StoredEvent → Bool
in_account p row = row.account_id == p.account_id && row.aggregate_type == p.aggregate_type

-- `SELECT DISTINCT aggregate_id`, here in the order of the first rows: SQL promises no order.
unfoldable pub list_aggregate_ids : ListAggregateIdsParams → Table → List String
unfolding distinct in_account
list_aggregate_ids p table =
    distinct (map (λ (row : StoredEvent). row.aggregate_id) (filter (in_account p) table))

-- `LIMIT 1`, taken from the oldest row.
unfoldable pub resolve_account_id : String → String → Table → Option String
resolve_account_id aggregate_type aggregate_id table =
    elim (find (λ row. row.aggregate_type == aggregate_type && row.aggregate_id == aggregate_id)
      table) [ none ↦ none | some row ↦ some row.account_id ]

unfoldable pub delete_account : String → Table → Table
delete_account account_id table = filter (λ row. not (row.account_id == account_id)) table

pub record Loaded (S : Type 0) : Type 0 where
  pub state : S
  pub events : List StoredEvent
  pub version : ℕ

unfoldable pub load_aggregate :
    {S : Type 0} → Table → ReadStreamParams → S → (S → StoredEvent → S) → Loaded S
load_aggregate table p initial reducer =
    let events = read_stream p table in
    record { state = foldl reducer initial events; events = events; version = length events }
