-- ===== src/EventStore/Consistency.antt =====
-- The invariant of the table that `loadAggregate` and the optimistic concurrency of `append`
-- rest on, and what an append does to it.
use fluxip.Base.{
  ℕ, suc, ◌+◌, ◌≤◌, ◌<◌, ◌≡◌, refl, ◌∙◌, ap, ◌⊎◌, inl, inr, false, List, [], ◌∷◌, ◌++◌, arith,
  Bool-cases, length, In, any, any_of_In,
}
use fluxip.Event.{
  StoredEvent, AppendEventInput, ReadStreamParams, concurrency_error, Result, ok, err,
}
use fluxip.EventStore.{Table, row_of, collides, append, read_stream}
use fluxip.EventStore.Streams.{collides_of_key}

-- The events are numbered `k`, `k + 1`, …
abbrev pub Numbered : ℕ → List StoredEvent → Type 0
Numbered k [] = Unit
Numbered k (e ∷ es) = (e.sequence_number ≡ k) × Numbered (suc k) es

-- Every stream is numbered from 1 without a gap, and no aggregate has rows of two accounts.
pub record IsConsistent (table : Table) : Type 0 where
  pub gapless : (p : ReadStreamParams) → Numbered 1 (read_stream p table)
  pub owned :
      (x y : StoredEvent)
      → In x table
      → In y table
      → x.aggregate_type ≡ y.aggregate_type
      → x.aggregate_id ≡ y.aggregate_id
      → x.account_id ≡ y.account_id

pub Numbered-bounds :
    (k : ℕ) (es : List StoredEvent) (e : StoredEvent)
    → Numbered k es
    → In e es
    → (k ≤ e.sequence_number) × (e.sequence_number < k + length es)
Numbered-bounds k [] e h i = elim i [ ]
Numbered-bounds k (x ∷ es) e h (inl p) =
    ground (arith, ap (λ (t : StoredEvent). t.sequence_number) p)
Numbered-bounds k (x ∷ es) e h (inr i) = omega (arith, Numbered-bounds (suc k) es e h.1 i)

pub Numbered-append :
    (k : ℕ) (es : List StoredEvent) (e : StoredEvent)
    → Numbered k es
    → e.sequence_number ≡ k + length es
    → Numbered k (es ++ e ∷ [])
Numbered-append k [] e h q = (omega arith, tt)
Numbered-append k (x ∷ es) e h q = (h.0, Numbered-append (suc k) es e h.1 (omega arith))

pub Numbered-find :
    (k : ℕ) (es : List StoredEvent) (n : ℕ)
    → Numbered k es
    → k ≤ n
    → n < k + length es
    → (e : StoredEvent) × In e es × (e.sequence_number ≡ n)
Numbered-find k [] n h lo hi = absurd (omega arith)
Numbered-find k (x ∷ es) n h lo hi = elim (same_or_later k n lo) [
  | inl q ↦ (x, inl refl, h.0 ∙ q)
  | inr q ↦ let (e, i, r) = Numbered-find (suc k) es n h.1 q (omega arith) in (e, inr i, r)
]
  where
    same_or_later : (a b : ℕ) → a ≤ b → (a ≡ b) ⊎ (suc a ≤ b)
    same_or_later a b l = grind arith

abbrev pub stream_of : AppendEventInput → ReadStreamParams
stream_of input = record {
  account_id = input.account_id;
  aggregate_type = input.aggregate_type;
  aggregate_id = input.aggregate_id;
}

abbrev pub conflict : AppendEventInput → Table → Result StoredEvent × Table
conflict input table = (
  err (concurrency_error input.aggregate_type input.aggregate_id input.expected_sequence_number),
  table,
)

module _ (input : AppendEventInput) (table : Table) where
  pub append_cases :
      (append input table ≡ conflict input table)
      ⊎ ((any (collides (row_of input)) table ≡ false)
          × (append input table ≡ (ok (row_of input), table ++ row_of input ∷ [])))
  unfolding append
  append_cases = elim (Bool-cases (any (collides (row_of input)) table)) [
    | inl y ↦ inl (rw y)
    | inr n ↦ inr (n, rw n)
  ]

  -- A row with the aggregate and the number of the input makes the append fail.
  pub append-conflict :
      (x : StoredEvent)
      → In x table
      → x.aggregate_type ≡ input.aggregate_type
      → x.aggregate_id ≡ input.aggregate_id
      → x.sequence_number ≡ input.expected_sequence_number
      → append input table ≡ conflict input table
  unfolding append row_of
  append-conflict x i t a n =
      rw (any_of_In (collides (row_of input)) x table i (collides_of_key (row_of input) x t a n))
