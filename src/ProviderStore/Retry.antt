-- ===== src/ProviderStore/Retry.antt =====
-- The retry of `ProviderStore.append` while other processes write between its loads and inserts.
use fluxip.Base.{ℕ, ◌+◌, ◌<◌, String, ◌≡◌, ◌≢◌, none, some, [], ◌∷◌, ◌++◌, arith, In}
use fluxip.Event.{
  of_provider, StoredEvent, AppendEventInput, ok, CloudEventsConfig, Stamp, build_domain_event,
  append_input,
}
use fluxip.Event.Provider.{TraefikProviderEvent, traefik_provider_aggregate_type}
use fluxip.EventStore.{Table, row_of, load_aggregate}
use fluxip.EventStore.Consistency.{IsConsistent, conflict}
use fluxip.EventStore.Append.{stream_length, append_stale, append_fresh}
use fluxip.ProviderStore.{provider_stream, load, attempt_append, append_loop}

module _ (config : CloudEventsConfig) (account_id provider_id : String)
    (event : TraefikProviderEvent) where
  -- The input of an attempt that loaded the stream at `length` events.
  unfoldable pub attempt_input : Stamp → ℕ → AppendEventInput
  attempt_input stamp length =
      append_input (provider_stream account_id provider_id) (length + 1)
        (build_domain_event config traefik_provider_aggregate_type (of_provider event) stamp)

  -- The id is new in the table, and no other account has a stream of this provider.
  pub record IsFree (stamp : Stamp) (table : Table) : Type 0 where
    pub new_id : (x : StoredEvent) → In x table → x.id ≢ stamp.ulid
    pub own_provider :
        (x : StoredEvent)
        → In x table
        → x.aggregate_type ≡ traefik_provider_aggregate_type
        → x.aggregate_id ≡ provider_id
        → x.account_id ≡ account_id

  -- How many events the provider's stream has.
  abbrev pub version_in : Table → ℕ
  version_in table = stream_length (provider_stream account_id provider_id) table

  -- An attempt that others overtook between its load and its insert is refused.
  pub attempt_overtaken :
      (stamp : Stamp) (others : Table → Table) (table : Table)
      → IsConsistent (others table)
      → version_in table < version_in (others table)
      → attempt_append config account_id provider_id event stamp others table
        ≡ conflict (attempt_input stamp (version_in table)) (others table)
  unfolding attempt_append load load_aggregate attempt_input
  attempt_overtaken stamp others table c grown =
      append_stale (attempt_input stamp (version_in table)) (others table) c
        (unfold append_input in omega arith) (unfold append_input in omega arith)

  -- An attempt whose stream nobody extends between its load and its insert writes its row.
  pub attempt_undisturbed :
      (stamp : Stamp) (others : Table → Table) (table : Table)
      → IsConsistent (others table)
      → version_in (others table) ≡ version_in table
      → IsFree stamp (others table)
      → attempt_append config account_id provider_id event stamp others table ≡ (
        ok (row_of (attempt_input stamp (version_in table))),
        others table ++ row_of (attempt_input stamp (version_in table)) ∷ [],
      )
  unfolding attempt_append load load_aggregate attempt_input append_input build_domain_event
  attempt_undisturbed stamp others table c quiet free =
      (append_fresh (attempt_input stamp (version_in table)) (others table) c (omega arith)
        free.new_id free.own_provider).0

  module _ (stamps : ℕ → Stamp) (others : ℕ → Table → Table) (table : Table) where
    -- Two rounds of fuel are enough for the loop, whatever the other processes write.
    pub append_loop_total :
        append_loop 2 0 config account_id provider_id event stamps others table ≢ none
    unfolding append_loop
    append_loop_total = ground arith

    -- If others extended the provider's stream before the first insert, and before the second one
    -- wrote only to other streams, `append` retries and writes exactly one row, numbered behind what
    -- the others wrote. The table is consistent before each insert, and before the second one the
    -- new event's id is new and no other account has events of the provider.
    pub append_retries :
        IsConsistent (others 0 table)
        → version_in table < version_in (others 0 table)
        → IsConsistent (others 1 (others 0 table))
        → version_in (others 1 (others 0 table)) ≡ version_in (others 0 table)
        → IsFree (stamps 1) (others 1 (others 0 table))
        → let row = row_of (attempt_input (stamps 1) (version_in (others 0 table))) in
          append_loop 2 0 config account_id provider_id event stamps others table
          ≡ some (ok row, others 1 (others 0 table) ++ row ∷ [])
    unfolding append_loop
    append_retries c grown d quiet free =
        rw (attempt_overtaken (stamps 0) (others 0) table c grown)
          (rw (attempt_undisturbed (stamps 1) (others 1) (others 0 table) d quiet free))

    -- If others extend the stream before both inserts, and the table is consistent before each of
    -- them, `append` fails with the concurrency error of the second attempt and writes nothing of its
    -- own.
    pub append_gives_up :
        IsConsistent (others 0 table)
        → IsConsistent (others 1 (others 0 table))
        → version_in table < version_in (others 0 table)
        → version_in (others 0 table) < version_in (others 1 (others 0 table))
        → append_loop 2 0 config account_id provider_id event stamps others table
          ≡ some (
              conflict
                (attempt_input (stamps 1) (version_in (others 0 table)))
                (others 1 (others 0 table)))
    unfolding append_loop
    append_gives_up c d grown again =
        rw (attempt_overtaken (stamps 0) (others 0) table c grown)
          (rw (attempt_overtaken (stamps 1) (others 1) (others 0 table) d again))
