-- ===== src/Tests/ProviderStore.antt =====
-- The provider store beside other writers, on concrete tables.
use fluxip.Base.{
  ℕ, ◌≡◌, ◌≢◌, refl, ap, inl, inr, some, none, [], ◌∷◌, ◌++◌, arith, eq_iff, zero, suc,
}
use fluxip.Event.{AppendEventInput, StoredEvent, ok, Stamp}
use fluxip.EventStore.{Table, row_of, append, read_stream}
use fluxip.EventStore.Consistency.{conflict}
use fluxip.EventStore.History.{Reach, empty, next, write, Reach-IsConsistent}
use fluxip.ProviderStore.{append_loop}
use fluxip.ProviderStore.Retry.{
  attempt_input, IsFree, append_loop_total, append_retries, append_gives_up,
}
use fluxip.Tests.Samples.{config, stamp, provider_renamed, first, second}

abbrev attempts : ℕ → Stamp
attempts zero = stamp "u0"
attempts (suc _) = stamp "u1"

-- The first event of another provider.
abbrev elsewhere : AppendEventInput
elsewhere = record first { id = "e9"; aggregate_id = "Q" }

-- Another process writes the first event between the load and the insert of the first attempt, and
-- one of the other provider between those of the second.
abbrev once : ℕ → Table → Table
once zero t = (append first t).1
once (suc _) t = (append elsewhere t).1

-- It writes the second one between those of the second attempt.
abbrev twice : ℕ → Table → Table
twice zero t = (append first t).1
twice (suc _) t = (append second t).1

one-Reach : Reach (once 0 [])
one-Reach = next empty (write first (omega arith) (omega arith))

two-Reach : Reach (twice 1 (twice 0 []))
two-Reach =
    next one-Reach (write second (omega arith) (unfold append read_stream row_of in omega arith))

append_loop_total_example : append_loop 2 0 config "A" "P" provider_renamed attempts once [] ≢ none
append_loop_total_example = append_loop_total config "A" "P" provider_renamed attempts once []

beside-Reach : Reach (once 1 (once 0 []))
beside-Reach =
    next one-Reach (write elsewhere (omega arith) (unfold append read_stream row_of in omega arith))

once-IsFree : IsFree config "A" "P" provider_renamed (stamp "u1") (once 1 (once 0 []))
unfolding append row_of
once-IsFree = record {
  new_id = λ x i q. elim i [
    | inl e ↦ ground (arith, eq_iff "e1" "u1", ap (λ (r : StoredEvent). r.id) e)
    | inr h ↦ elim h [
      | inl e ↦ ground (arith, eq_iff "e9" "u1", ap (λ (r : StoredEvent). r.id) e)
      | inr k ↦ elim k [ ]
    ]
  ];
  own_provider = λ x i t a. elim i [
    | inl e ↦ ap (λ (r : StoredEvent). r.account_id) e
    | inr h ↦ elim h [ inl e ↦ ap (λ (r : StoredEvent). r.account_id) e | inr k ↦ elim k [ ] ]
  ];
}

append_retries_example :
    let row = row_of (attempt_input config "A" "P" provider_renamed (stamp "u1") 1) in
    append_loop 2 0 config "A" "P" provider_renamed attempts once []
    ≡ some (ok row, once 1 (once 0 []) ++ row ∷ [])
append_retries_example =
    unfold append read_stream row_of in
    append_retries config "A" "P" provider_renamed attempts once [] (Reach-IsConsistent one-Reach)
      (omega arith) (Reach-IsConsistent beside-Reach) refl once-IsFree

append_gives_up_example :
    append_loop 2 0 config "A" "P" provider_renamed attempts twice []
    ≡ some (
        conflict
          (attempt_input config "A" "P" provider_renamed (stamp "u1") 1)
          (twice 1 (twice 0 [])))
append_gives_up_example =
    unfold append read_stream row_of in
    append_gives_up config "A" "P" provider_renamed attempts twice [] (Reach-IsConsistent one-Reach)
      (Reach-IsConsistent two-Reach) (omega arith) (omega arith)
