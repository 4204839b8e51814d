-- ===== src/Tests/EventStore.antt =====
-- A table of one row, and appends to it.
use fluxip.Base.{
  ◌+◌, ◌==◌, if◌then◌else◌, ◌≡◌, ◌≢◌, refl, ap, inl, inr, [], ◌∷◌, ◌++◌, arith, eq_iff, In,
}
use fluxip.Event.{StoredEvent, ok}
use fluxip.EventStore.{Table, row_of, append, read_stream, load_aggregate, delete_account}
use fluxip.EventStore.Consistency.{IsConsistent, stream_of, conflict}
use fluxip.EventStore.Append.{append_stale, append_fresh}
use fluxip.EventStore.History.{
  Reach, empty, next, write, read_stream-delete_account, Reach-IsConsistent,
}
use fluxip.EventStore.Replay.{load_aggregate-append}
use fluxip.Aggregates.Provider.{initial_traefik_provider_state, traefik_provider_reducer}
use fluxip.Tests.Samples.{first, second, late}

abbrev one_row : Table
one_row = (append first []).1

one_row_lem : one_row ≡ row_of first ∷ []
unfolding append
one_row_lem = refl

one_row-Reach : Reach one_row
one_row-Reach = next empty (write first (omega arith) (omega arith))

one_row-IsConsistent : IsConsistent one_row
one_row-IsConsistent = Reach-IsConsistent one_row-Reach

Reach-IsConsistent_example : IsConsistent one_row
Reach-IsConsistent_example = Reach-IsConsistent one_row-Reach

append_stale_example : append late one_row ≡ conflict late one_row
append_stale_example =
    append_stale late one_row one_row-IsConsistent (omega arith)
      (unfold append read_stream row_of in omega arith)

second_is_next :
    second.expected_sequence_number
    ≡ (load_aggregate one_row
        (stream_of second)
        initial_traefik_provider_state
        traefik_provider_reducer).version
      + 1
unfolding append read_stream load_aggregate row_of
second_is_next = refl

second-new_id : (x : StoredEvent) → In x one_row → x.id ≢ second.id
unfolding append row_of
second-new_id x (inl e) q = ground (arith, eq_iff "e1" "e2", ap (λ (r : StoredEvent). r.id) e)
second-new_id x (inr i) q = elim i [ ]

second-own :
    (x : StoredEvent)
    → In x one_row
    → x.aggregate_type ≡ second.aggregate_type
    → x.aggregate_id ≡ second.aggregate_id
    → x.account_id ≡ second.account_id
unfolding append row_of
second-own x (inl e) t a = ap (λ (r : StoredEvent). r.account_id) e
second-own x (inr i) t a = elim i [ ]

append_fresh_example :
    (append second one_row ≡ (ok (row_of second), one_row ++ row_of second ∷ []))
    × (read_stream (stream_of second) (append second one_row).1
        ≡ read_stream (stream_of second) one_row ++ row_of second ∷ [])
append_fresh_example =
    append_fresh second one_row one_row-IsConsistent (unfold load_aggregate in second_is_next)
      second-new_id second-own

load_aggregate-append_example :
    let before =
      load_aggregate one_row
        (stream_of second)
        initial_traefik_provider_state
        traefik_provider_reducer in
    let after =
      load_aggregate
        (append second one_row).1
        (stream_of second)
        initial_traefik_provider_state
        traefik_provider_reducer in
    ((append second one_row).0 ≡ ok (row_of second))
    × (after.state ≡ traefik_provider_reducer before.state (row_of second))
    × (after.version ≡ before.version + 1)
load_aggregate-append_example =
    load_aggregate-append second one_row initial_traefik_provider_state traefik_provider_reducer
      one_row-IsConsistent second_is_next second-new_id second-own

read_stream-delete_account_example :
    read_stream (stream_of first) (delete_account "A" one_row)
    ≡ (if "A" == "A" then [] else read_stream (stream_of first) one_row)
read_stream-delete_account_example = read_stream-delete_account (stream_of first) "A" one_row
