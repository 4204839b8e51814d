-- ===== src/EventStore/Replay.antt =====
-- `loadAggregate` of backend/src/domain/replay.ts after an append.
use fluxip.Base.{◌+◌, ◌≡◌, ◌≢◌, refl, List, [], ◌∷◌, ◌++◌, length-append, In}
use mathlib.Core.List.{foldl}
use fluxip.Event.{StoredEvent, AppendEventInput, ok}
use fluxip.EventStore.{Table, row_of, append, read_stream, load_aggregate}
use fluxip.EventStore.Consistency.{IsConsistent, stream_of}
use fluxip.EventStore.Append.{append_fresh}

pub foldl-append {ℓ κ} :
    {S : Type ℓ} {A : Type κ} (f : S → A → S) (s : S) (xs ys : List A)
    → foldl f s (xs ++ ys) ≡ foldl f (foldl f s xs) ys
foldl-append f s [] ys = refl
foldl-append f s (x ∷ xs) ys = foldl-append f (f s x) xs ys

module _ {S : Type 0} (input : AppendEventInput) (table : Table) (initial : S)
    (reducer : S → StoredEvent → S) where
  -- On a consistent table, an append numbered by the loaded version plus one, with a new id, of an
  -- aggregate that no other account has, succeeds; the next load has one more event, and its state
  -- is the reducer's result on the loaded state and the stored event.
  pub load_aggregate-append :
      IsConsistent table
      → input.expected_sequence_number
        ≡ (load_aggregate table (stream_of input) initial reducer).version + 1
      → ((x : StoredEvent) → In x table → x.id ≢ input.id)
      → ((x : StoredEvent)
          → In x table
          → x.aggregate_type ≡ input.aggregate_type
          → x.aggregate_id ≡ input.aggregate_id
          → x.account_id ≡ input.account_id)
      → let before = load_aggregate table (stream_of input) initial reducer in
        let after = load_aggregate (append input table).1 (stream_of input) initial reducer in
        ((append input table).0 ≡ ok (row_of input))
        × (after.state ≡ reducer before.state (row_of input))
        × (after.version ≡ before.version + 1)
  unfolding load_aggregate
  load_aggregate-append c n fresh own =
      let (e, r) = append_fresh input table c n fresh own in
      (
        rw e,
        rw (
          r,
          foldl-append reducer initial (read_stream (stream_of input) table) (row_of input ∷ []),
        ),
        rw (r, length-append (read_stream (stream_of input) table) (row_of input ∷ [])),
      )
