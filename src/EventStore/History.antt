-- ===== src/EventStore/History.antt =====
-- Every history of the table: writers that loaded their stream at any earlier moment, and accounts
-- that are deleted. A writer's number is then at most one above the current length of its stream.
use fluxip.Base.{
  ℕ, ◌+◌, ◌≤◌, String, ◌≡◌, refl, sym, ◌∙◌, ap, ◌⊎◌, inl, inr, true, false, Bool, not, List, [],
  ◌∷◌, ◌++◌, ◌==◌, eq_iff, arith, if◌then◌else◌, Bool-cases, List-cases, In, In-append, In-filter,
  any, any_of_In, filter,
}
use fluxip.Event.{StoredEvent, AppendEventInput, ReadStreamParams, ok}
use fluxip.EventStore.{
  Table, row_of, collides, append, in_stream, order_by_sequence, read_stream, delete_account,
}
use fluxip.EventStore.Streams.{
  in_stream-Belongs, In-read_stream_of, In-read_stream, collides_of_key,
}
use fluxip.EventStore.Consistency.{
  Numbered, IsConsistent, Numbered-append, Numbered-find, Numbered-bounds, stream_of, append_cases,
}
use fluxip.EventStore.Append.{
  stream_length, stream_of_row, append_stale, read_own_stream, append_other_stream,
}

-- The row at the head of a stream that is not empty has the number 1.
first_row :
    (table : Table) (c : IsConsistent table) (x : StoredEvent)
    → In x table
    → (e : StoredEvent) × In e table
      × (e.aggregate_type ≡ x.aggregate_type)
      × (e.aggregate_id ≡ x.aggregate_id)
      × (e.sequence_number ≡ 1)
first_row table c x i =
    let q = stream_of_row x in
    let m =
      In-read_stream_of q x table i
        (record { same_account = refl; same_type = refl; same_id = refl }) in
    let w = Numbered-bounds 1 (read_stream q table) x (c.gapless q) m in
    let (e, j, n) =
      Numbered-find 1 (read_stream q table) 1 (c.gapless q) (omega arith) (omega arith) in
    let (k, b) = In-read_stream q e table j in (e, k, b.same_type, b.same_id, n)

module _ (input : AppendEventInput) (table : Table) (c : IsConsistent table) where
  -- Whoever has rows of the aggregate of an up-to-date append is the account of the input.
  owner_of_new :
      input.expected_sequence_number ≡ stream_length (stream_of input) table + 1
      → any (collides (row_of input)) table ≡ false
      → (x : StoredEvent) → In x table
      → x.aggregate_type ≡ input.aggregate_type
      → x.aggregate_id ≡ input.aggregate_id
      → x.account_id ≡ input.account_id
  unfolding row_of
  owner_of_new n free x i t a = elim (List-cases (read_stream (stream_of input) table)) [
    | inl empty ↦
        let (e, j, te, ae, one) = first_row table c x i in
        cc (
          free,
          any_of_In (collides (row_of input)) e table j (
              collides_of_key (row_of input) e (te ∙ t) (ae ∙ a)
                (one ∙ sym (n ∙ ap (λ (k : ℕ). k + 1) empty))),
        )
    | inr (y, j) ↦
        let (k, b) = In-read_stream (stream_of input) y table j in
        c.owned x y i k (t ∙ sym b.same_type) (a ∙ sym b.same_id) ∙ b.same_account
  ]

  -- The streams after an up-to-date append that goes through.
  new_gapless :
      input.expected_sequence_number ≡ stream_length (stream_of input) table + 1
      → any (collides (row_of input)) table ≡ false
      → append input table ≡ (ok (row_of input), table ++ row_of input ∷ [])
      → (q : ReadStreamParams) → Numbered 1 (read_stream q (append input table).1)
  new_gapless n free e q = elim (Bool-cases (in_stream q (row_of input))) [
    | inr other ↦ rw (append_other_stream input table c q other) (c.gapless q)
    | inl same ↦
        let b = in_stream-Belongs q (row_of input) same in
        let p : stream_of input ≡ q =
          unfold row_of in
          λ k. record {
            account_id = b.same_account k;
            aggregate_type = b.same_type k;
            aggregate_id = b.same_id k;
          } in
        rw e (
          rw (← p) (
            rw (read_own_stream input table c n) (
              Numbered-append 1 (read_stream (stream_of input) table) (row_of input)
                (c.gapless (stream_of input)) (unfold row_of in omega arith))))
  ]

  owned_cases :
      input.expected_sequence_number ≡ stream_length (stream_of input) table + 1
      → any (collides (row_of input)) table ≡ false
      → (x y : StoredEvent) → In x table ⊎ In x (row_of input ∷ [])
      → In y table ⊎ In y (row_of input ∷ [])
      → x.aggregate_type ≡ y.aggregate_type
      → x.aggregate_id ≡ y.aggregate_id
      → x.account_id ≡ y.account_id
  unfolding row_of
  owned_cases n free x y (inl i) (inl j) t a = c.owned x y i j t a
  owned_cases n free x y (inl i) (inr (inl q)) t a =
      owner_of_new n free x i (t ∙ ap (λ (r : StoredEvent). r.aggregate_type) q)
        (a ∙ ap (λ (r : StoredEvent). r.aggregate_id) q)
      ∙ sym (ap (λ (r : StoredEvent). r.account_id) q)
  owned_cases n free x y (inr (inl q)) (inl j) t a =
      ap (λ (r : StoredEvent). r.account_id) q
      ∙ sym (
          owner_of_new n free y j (sym t ∙ ap (λ (r : StoredEvent). r.aggregate_type) q)
            (sym a ∙ ap (λ (r : StoredEvent). r.aggregate_id) q))
  owned_cases n free x y (inr (inl q)) (inr (inl r)) t a =
      ap (λ (r : StoredEvent). r.account_id) (q ∙ sym r)
  owned_cases n free x y (inl i) (inr (inr h)) t a = elim h [ ]
  owned_cases n free x y (inr (inr h)) j t a = elim h [ ]
  owned_cases n free x y (inr (inl q)) (inr (inr h)) t a = elim h [ ]

  -- An up-to-date append keeps the table consistent, whether it collides or not.
  append_next-IsConsistent :
      input.expected_sequence_number ≡ stream_length (stream_of input) table + 1
      → IsConsistent (append input table).1
  append_next-IsConsistent n = elim (append_cases input table) [
    | inl e ↦ rw e c
    | inr (free, e) ↦ record {
      gapless = new_gapless n free e;
      owned = rw e (λ x y i j.
          owned_cases n free x y (In-append x table (row_of input ∷ []) i)
            (In-append y table (row_of input ∷ []) j));
    }
  ]

-- The rows that `p` reads once an account is deleted: none of that account's, all of another's.
stream_of_deleted :
    (p : ReadStreamParams) (account_id : String) (rows : Table)
    → filter (in_stream p) (delete_account account_id rows)
      ≡ (if p.account_id == account_id then [] else filter (in_stream p) rows)
unfolding in_stream delete_account
stream_of_deleted p account_id [] = ground arith
stream_of_deleted p account_id (r ∷ rows) = ground (
  arith,
  eq_iff r.account_id p.account_id,
  eq_iff p.account_id account_id,
  eq_iff r.account_id account_id,
  stream_of_deleted p account_id rows,
)

-- After `deleteAccount` the streams of that account are empty, and every stream of another account
-- is read as before.
pub read_stream-delete_account :
    (p : ReadStreamParams) (account_id : String) (table : Table)
    → read_stream p (delete_account account_id table)
      ≡ (if p.account_id == account_id then [] else read_stream p table)
unfolding read_stream
read_stream-delete_account p account_id table =
    rw (stream_of_deleted p account_id table) (ground arith)

delete_account-IsConsistent :
    (account_id : String) (table : Table)
    → IsConsistent table
    → IsConsistent (delete_account account_id table)
delete_account-IsConsistent account_id table c = record {
  gapless = λ p.
      rw (read_stream-delete_account p account_id table)
        (Numbered-if (p.account_id == account_id) (read_stream p table) (c.gapless p));
  owned = λ x y i j. c.owned x y (kept x i) (kept y j);
}
  where
    Numbered-if :
        (b : Bool) (es : List StoredEvent) → Numbered 1 es → Numbered 1 (if b then [] else es)
    Numbered-if true es h = tt
    Numbered-if false es h = h

    kept : (x : StoredEvent) → In x (delete_account account_id table) → In x table
    kept x i =
        (In-filter (λ row. not (row.account_id == account_id)) x table
          (unfold delete_account in i)).0

-- One statement that the service runs. The number of an append is one more than the version that
-- its writer loaded, now or earlier; streams only grow until their account is deleted, so the number
-- is at most one more than the length of the stream if no writer of a deleted account is left.
pub data Step (table : Table) : Table → Type 0 where
  write :
      (input : AppendEventInput)
      → 1 ≤ input.expected_sequence_number
      → input.expected_sequence_number ≤ stream_length (stream_of input) table + 1
      → Step table (append input table).1
  erase : (account_id : String) → Step table (delete_account account_id table)

pub data Reach : Table → Type 0 where
  empty : Reach []
  next : {table table' : Table} → Reach table → Step table table' → Reach table'

write-IsConsistent :
    (input : AppendEventInput) (table : Table)
    → IsConsistent table
    → 1 ≤ input.expected_sequence_number
    → (input.expected_sequence_number ≤ stream_length (stream_of input) table)
      ⊎ (input.expected_sequence_number ≡ stream_length (stream_of input) table + 1)
    → IsConsistent (append input table).1
write-IsConsistent input table c lo (inl old) = rw (append_stale input table c lo old) c
write-IsConsistent input table c lo (inr new) = append_next-IsConsistent input table c new

Step-IsConsistent :
    {table table' : Table} → IsConsistent table → Step table table' → IsConsistent table'
Step-IsConsistent {table} c (write input lo hi) =
    write-IsConsistent input table c lo (at_most_next _ _ hi)
  where
    at_most_next : (a b : ℕ) → a ≤ b + 1 → (a ≤ b) ⊎ (a ≡ b + 1)
    at_most_next a b h = grind arith
Step-IsConsistent {table} c (erase account_id) = delete_account-IsConsistent account_id table c

-- In every table that such statements reach, with writers racing one another, each stream is
-- numbered 1, 2, … without a gap, and no aggregate has rows of two accounts.
pub Reach-IsConsistent : {table : Table} → Reach table → IsConsistent table
Reach-IsConsistent empty = record {
  gapless = λ p. unfold read_stream order_by_sequence in tt;
  owned = λ x y i. elim i [ ];
}
Reach-IsConsistent (next r s) = Step-IsConsistent (Reach-IsConsistent r) s
