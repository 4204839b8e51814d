-- ===== src/EventStore/Commands.antt =====
-- What every command handler does with a loaded stream: it builds an event and appends it behind
-- the version that it loaded. `eventStore.append` is called with this literal all over backend/src.
use fluxip.Base.{
  ℕ, ◌+◌, String, ◌≡◌, ◌≢◌, refl, sym, ◌∙◌, true, false, [], ◌∷◌, ◌++◌, ◌==◌, eq_iff, arith, In,
  filter, filter-append, map, contains, if◌then◌else◌, ◌&&◌, contains-distinct, distinct-append,
}
use mathlib.Core.List.{append-nil, map-append}
use fluxip.Event.{
  Payload, StoredEvent, ReadStreamParams, ListAggregateIdsParams, Result, ok, CloudEventsConfig,
  Stamp, build_domain_event, append_input, AppendEventInput,
}
use fluxip.EventStore.{
  Table, append, row_of, in_stream, in_account, read_stream, order_by_sequence, load_aggregate,
  list_aggregate_ids,
}
use fluxip.EventStore.Streams.{read_stream-append_ne}
use fluxip.EventStore.Consistency.{IsConsistent}
use fluxip.EventStore.Append.{append_fresh, stream_length}
use fluxip.EventStore.Replay.{foldl-append}

unfoldable pub next_input :
    CloudEventsConfig → ReadStreamParams → ℕ → Payload → Stamp → AppendEventInput
next_input config p version payload stamp =
    append_input p (version + 1) (build_domain_event config p.aggregate_type payload stamp)

unfoldable pub append_next :
    CloudEventsConfig → ReadStreamParams → ℕ → Payload → Stamp → Table → Result StoredEvent × Table
unfolding next_input
append_next config p version payload stamp table =
    append (next_input config p version payload stamp) table

-- The table is consistent, the event's id is new, and the aggregate is nobody else's.
pub record CanWrite (p : ReadStreamParams) (id : String) (table : Table) : Type 0 where
  pub consistent : IsConsistent table
  pub new_id : (x : StoredEvent) → In x table → x.id ≢ id
  pub own :
      (x : StoredEvent)
      → In x table
      → x.aggregate_type ≡ p.aggregate_type
      → x.aggregate_id ≡ p.aggregate_id
      → x.account_id ≡ p.account_id

module _ (config : CloudEventsConfig) (p : ReadStreamParams) (payload : Payload) (stamp : Stamp)
    (table : Table) where
  -- The row of an event behind the whole stream.
  abbrev pub next_row : StoredEvent
  next_row = row_of (next_input config p (stream_length p table) payload stamp)

  module _ (can : CanWrite p stamp.ulid table) where
    pub append_next_ok :
        append_next config p (stream_length p table) payload stamp table
        ≡ (ok next_row, table ++ next_row ∷ [])
    unfolding append_next next_input append_input build_domain_event
    append_next_ok =
        (append_fresh (next_input config p (stream_length p table) payload stamp) table
          can.consistent refl can.new_id can.own).0

    pub read_next : read_stream p (table ++ next_row ∷ []) ≡ read_stream p table ++ next_row ∷ []
    unfolding next_input append_input build_domain_event
    read_next =
        let (e, r) =
          append_fresh (next_input config p (stream_length p table) payload stamp) table
            can.consistent refl can.new_id can.own in
        rw e at r

    pub load_next :
        {S : Type 0} (initial : S) (reducer : S → StoredEvent → S)
        → (load_aggregate (table ++ next_row ∷ []) p initial reducer).state
          ≡ reducer (load_aggregate table p initial reducer).state next_row
    unfolding load_aggregate
    load_next initial reducer =
        rw (read_next, foldl-append reducer initial (read_stream p table) (next_row ∷ [])) refl

  pub next_row-other :
      (q : ReadStreamParams)
      → (p.aggregate_type == q.aggregate_type && p.aggregate_id == q.aggregate_id) ≡ false
      → in_stream q next_row ≡ false
  unfolding row_of next_input append_input build_domain_event in_stream
  next_row-other q h = ground arith

  abbrev pub own_params : ListAggregateIdsParams
  own_params = record { account_id = p.account_id; aggregate_type = p.aggregate_type }

  pub next_row-payload : next_row.payload ≡ payload
  unfolding row_of next_input append_input build_domain_event
  next_row-payload = refl

  next_row-account : in_account own_params next_row ≡ true
  unfolding row_of next_input append_input build_domain_event in_account
  next_row-account =
      ground (arith, eq_iff p.account_id p.account_id, eq_iff p.aggregate_type p.aggregate_type)

  next_row-other_type :
      (params : ListAggregateIdsParams)
      → (p.aggregate_type == params.aggregate_type) ≡ false
      → in_account params next_row ≡ false
  unfolding row_of next_input append_input build_domain_event in_account
  next_row-other_type params h = ground arith

  next_row-id : next_row.aggregate_id ≡ p.aggregate_id
  unfolding row_of next_input append_input build_domain_event
  next_row-id = refl

  -- The aggregates of the account and the type, after the event.
  pub list_aggregate_ids-next : list_aggregate_ids own_params (table ++ next_row ∷ []) ≡ (
      if contains (list_aggregate_ids own_params table) p.aggregate_id
      then list_aggregate_ids own_params table
      else list_aggregate_ids own_params table ++ p.aggregate_id ∷ [])
  unfolding list_aggregate_ids
  list_aggregate_ids-next =
      let id_of = λ (row : StoredEvent). row.aggregate_id in
      let ids = map id_of (filter (in_account own_params) table) in
      rw
        (
          filter-append (in_account own_params) table (next_row ∷ []),
          next_row-account,
          map-append id_of (filter (in_account own_params) table) (next_row ∷ []),
          next_row-id,
          distinct-append ids p.aggregate_id,
          contains-distinct ids p.aggregate_id,
        )
        refl

  -- The aggregates of another type.
  pub list_aggregate_ids-other :
      (params : ListAggregateIdsParams)
      → (p.aggregate_type == params.aggregate_type) ≡ false
      → list_aggregate_ids params (table ++ next_row ∷ []) ≡ list_aggregate_ids params table
  unfolding list_aggregate_ids
  list_aggregate_ids-other params h =
      rw (filter-append (in_account params) table (next_row ∷ []), next_row-other_type params h)
        (simp append-nil)

-- Another stream is loaded as before.
pub load_other :
    {S : Type 0} (q : ReadStreamParams) (row : StoredEvent) (table : Table) (initial : S)
    (reducer : S → StoredEvent → S)
    → in_stream q row ≡ false
    → load_aggregate (table ++ row ∷ []) q initial reducer ≡ load_aggregate table q initial reducer
unfolding load_aggregate
load_other q row table initial reducer h = rw (read_stream-append_ne q row table h) refl

unlisted_rows :
    (p : ReadStreamParams) (table : Table)
    → contains
        (map
          (λ (row : StoredEvent). row.aggregate_id)
          (filter
            (in_account (record { account_id = p.account_id; aggregate_type = p.aggregate_type }))
            table))
        p.aggregate_id
      ≡ false
    → filter (in_stream p) table ≡ []
unfolding in_account in_stream
unlisted_rows p [] h = refl
unlisted_rows p (row ∷ table) h = ground (arith, unlisted_rows p table)

-- An aggregate that is not listed has no events.
pub read_stream-unlisted :
    (p : ReadStreamParams) (table : Table)
    → contains
        (list_aggregate_ids
          (record { account_id = p.account_id; aggregate_type = p.aggregate_type })
          table)
        p.aggregate_id
      ≡ false
    → read_stream p table ≡ []
unfolding read_stream list_aggregate_ids order_by_sequence
read_stream-unlisted p table h =
    rw (unlisted_rows p table (sym (contains-distinct _ p.aggregate_id) ∙ h)) refl
