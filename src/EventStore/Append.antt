-- ===== src/EventStore/Append.antt =====
-- Appends to a consistent table: by a stale writer, and by one that is up to date.
use fluxip.Base.{
  ℕ, ◌+◌, ◌≤◌, ◌≡◌, ◌≢◌, refl, inl, inr, true, false, [], ◌∷◌, ◌++◌, arith, Bool-cases, length, In,
  any, any-In,
}
use fluxip.Event.{StoredEvent, AppendEventInput, ReadStreamParams, ok}
use fluxip.EventStore.{Table, row_of, collides, append, in_stream, read_stream}
use fluxip.EventStore.Streams.{
  Belongs, in_stream_of_Belongs, In-read_stream, In-read_stream_of, read_stream-append,
  read_stream-append_ne, collides_cases,
}
use fluxip.EventStore.Consistency.{
  IsConsistent, Numbered-bounds, Numbered-find, stream_of, conflict, append_cases, append-conflict,
}

-- The number of events of the stream: the `version` that `loadAggregate` returns.
abbrev pub stream_length : ReadStreamParams → Table → ℕ
stream_length p table = length (read_stream p table)

-- The stream that a row belongs to.
abbrev pub stream_of_row : StoredEvent → ReadStreamParams
stream_of_row x = record {
  account_id = x.account_id;
  aggregate_type = x.aggregate_type;
  aggregate_id = x.aggregate_id;
}

module _ (input : AppendEventInput) (table : Table) (c : IsConsistent table) where
  -- On a consistent table an append whose expected number is taken fails with the concurrency
  -- error and changes nothing.
  pub append_stale :
      1 ≤ input.expected_sequence_number
      → input.expected_sequence_number ≤ stream_length (stream_of input) table
      → append input table ≡ conflict input table
  append_stale lo hi =
      let (e, i, n) =
        Numbered-find 1 (read_stream (stream_of input) table) input.expected_sequence_number
          (c.gapless (stream_of input)) lo (omega arith) in
      let (j, b) = In-read_stream (stream_of input) e table i in
      append-conflict input table e j b.same_type b.same_id n

  -- No row collides with an up-to-date append with a new id.
  no_collision :
      input.expected_sequence_number ≡ stream_length (stream_of input) table + 1
      → ((x : StoredEvent) → In x table → x.id ≢ input.id)
      → ((x : StoredEvent)
          → In x table
          → x.aggregate_type ≡ input.aggregate_type
          → x.aggregate_id ≡ input.aggregate_id
          → x.account_id ≡ input.account_id)
      → any (collides (row_of input)) table ≡ false
  unfolding row_of
  no_collision n fresh own = elim (Bool-cases (any (collides (row_of input)) table)) [
    | inr f ↦ f
    | inl t ↦
        let (x, i, h) = any-In (collides (row_of input)) table t in
        elim (collides_cases (row_of input) x h) [
          | inl same ↦ absurd (fresh x i same)
          | inr (ty, ag, s) ↦
              let b : Belongs (stream_of input) x = record {
                same_account = own x i ty ag;
                same_type = ty;
                same_id = ag;
              } in
              absurd (
                omega (
                  arith,
                  Numbered-bounds 1 (read_stream (stream_of input) table) x
                      (c.gapless (stream_of input))
                      (In-read_stream_of (stream_of input) x table i b),
                ))
        ]
  ]

  in_own_stream : in_stream (stream_of input) (row_of input) ≡ true
  unfolding row_of
  in_own_stream =
      in_stream_of_Belongs (stream_of input) (row_of input)
        (record { same_account = refl; same_type = refl; same_id = refl })

  -- A row numbered behind the stream is read last.
  pub read_own_stream :
      input.expected_sequence_number ≡ stream_length (stream_of input) table + 1
      → read_stream (stream_of input) (table ++ row_of input ∷ [])
        ≡ read_stream (stream_of input) table ++ row_of input ∷ []
  unfolding row_of
  read_own_stream n =
      read_stream-append (stream_of input) (row_of input) table in_own_stream (λ x i. omega (
        arith,
        Numbered-bounds 1 (read_stream (stream_of input) table) x (c.gapless (stream_of input)) i,
      ))

  -- An append at `version + 1`, with a new id, of an aggregate that no other account has, succeeds,
  -- adds its row to the table, and the stream now ends with it.
  pub append_fresh :
      input.expected_sequence_number ≡ stream_length (stream_of input) table + 1
      → ((x : StoredEvent) → In x table → x.id ≢ input.id)
      → ((x : StoredEvent)
          → In x table
          → x.aggregate_type ≡ input.aggregate_type
          → x.aggregate_id ≡ input.aggregate_id
          → x.account_id ≡ input.account_id)
      → (append input table ≡ (ok (row_of input), table ++ row_of input ∷ []))
        × (read_stream (stream_of input) (append input table).1
            ≡ read_stream (stream_of input) table ++ row_of input ∷ [])
  append_fresh n fresh own =
      let e : append input table ≡ (ok (row_of input), table ++ row_of input ∷ []) =
        unfold append in rw (no_collision n fresh own) in
      (e, rw e (read_own_stream n))

  -- Another stream is read as before, whether the append succeeds or not.
  pub append_other_stream :
      (q : ReadStreamParams)
      → in_stream q (row_of input) ≡ false
      → read_stream q (append input table).1 ≡ read_stream q table
  append_other_stream q h = elim (append_cases input table) [
    | inl e ↦ rw e
    | inr (_, e) ↦ rw e (read_stream-append_ne q (row_of input) table h)
  ]
