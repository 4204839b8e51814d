-- ===== src/EventStore/Streams.antt =====
-- What `read_stream` returns after an insert, and rows that collide.
use fluxip.Base.{
  ◌≤◌, ◌≡◌, ◌⊎◌, true, false, [], ◌∷◌, ◌++◌, eq_iff, arith, In, filter, filter-append, In-filter,
  In-filter_of,
}
use mathlib.Core.List.{append-nil}
use fluxip.Event.{StoredEvent, ReadStreamParams}
use fluxip.EventStore.{Table, collides, in_stream, read_stream}
use fluxip.EventStore.Order.{
  In-order_by_sequence, In-order_by_sequence_of, order_by_sequence-append,
}

-- `row` is a row of the stream `p`.
pub record Belongs (p : ReadStreamParams) (row : StoredEvent) : Type 0 where
  pub same_account : row.account_id ≡ p.account_id
  pub same_type : row.aggregate_type ≡ p.aggregate_type
  pub same_id : row.aggregate_id ≡ p.aggregate_id

module _ (p : ReadStreamParams) (row : StoredEvent) where
  pub in_stream-Belongs : in_stream p row ≡ true → Belongs p row
  unfolding in_stream
  in_stream-Belongs h = ground (
    arith,
    eq_iff row.account_id p.account_id,
    eq_iff row.aggregate_type p.aggregate_type,
    eq_iff row.aggregate_id p.aggregate_id,
  )

  pub in_stream_of_Belongs : Belongs p row → in_stream p row ≡ true
  unfolding in_stream
  in_stream_of_Belongs h = ground (
    arith,
    eq_iff row.account_id p.account_id,
    eq_iff row.aggregate_type p.aggregate_type,
    eq_iff row.aggregate_id p.aggregate_id,
  )

pub In-read_stream :
    (p : ReadStreamParams) (row : StoredEvent) (table : Table)
    → In row (read_stream p table)
    → In row table × Belongs p row
unfolding read_stream
In-read_stream p row table h =
    let (i, e) =
      In-filter (in_stream p) row table (In-order_by_sequence row (filter (in_stream p) table) h) in
    (i, in_stream-Belongs p row e)

pub In-read_stream_of :
    (p : ReadStreamParams) (row : StoredEvent) (table : Table)
    → In row table
    → Belongs p row
    → In row (read_stream p table)
unfolding read_stream
In-read_stream_of p row table i b =
    In-order_by_sequence_of row (filter (in_stream p) table)
      (In-filter_of (in_stream p) row table i (in_stream_of_Belongs p row b))

-- A row of another stream is not read.
pub read_stream-append_ne :
    (p : ReadStreamParams) (row : StoredEvent) (table : Table)
    → in_stream p row ≡ false
    → read_stream p (table ++ row ∷ []) ≡ read_stream p table
unfolding read_stream
read_stream-append_ne p row table h = simp (filter-append, h, append-nil)

-- A row with the largest number of its stream is read last.
pub read_stream-append :
    (p : ReadStreamParams) (row : StoredEvent) (table : Table)
    → in_stream p row ≡ true
    → ((x : StoredEvent) → In x (read_stream p table) → x.sequence_number ≤ row.sequence_number)
    → read_stream p (table ++ row ∷ []) ≡ read_stream p table ++ row ∷ []
unfolding read_stream
read_stream-append p row table h largest =
    rw (filter-append (in_stream p) table (row ∷ []), h)
      (order_by_sequence-append row (filter (in_stream p) table)
        (λ x i. largest x (In-order_by_sequence_of x (filter (in_stream p) table) i)))

-- What a colliding row has in common with the new one.
pub collides_cases :
    (new row : StoredEvent)
    → collides new row ≡ true
    → (row.id ≡ new.id)
      ⊎ ((row.aggregate_type ≡ new.aggregate_type)
          × (row.aggregate_id ≡ new.aggregate_id)
          × (row.sequence_number ≡ new.sequence_number))
unfolding collides
collides_cases new row h = ground (
  arith,
  eq_iff row.id new.id,
  eq_iff row.aggregate_type new.aggregate_type,
  eq_iff row.aggregate_id new.aggregate_id,
)

pub collides_of_key :
    (new row : StoredEvent)
    → row.aggregate_type ≡ new.aggregate_type
    → row.aggregate_id ≡ new.aggregate_id
    → row.sequence_number ≡ new.sequence_number
    → collides new row ≡ true
unfolding collides
collides_of_key new row t i n = ground (
  arith,
  eq_iff row.id new.id,
  eq_iff row.aggregate_type new.aggregate_type,
  eq_iff row.aggregate_id new.aggregate_id,
)
