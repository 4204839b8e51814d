-- ===== src/Tests/Tables.antt =====
-- Tables that appends reach, and that a new event can be written to.
use fluxip.Base.{
  ℕ, ◌==◌, ◌&&◌, ◌≡◌, ◌≢◌, refl, String, Bool, false, not, arith, eq_iff, In, any, any_of_In,
  Bool-cases, inl, inr,
}
use fluxip.Event.{Payload, StoredEvent, AppendEventInput, ReadStreamParams}
use fluxip.EventStore.{Table}
use fluxip.EventStore.Consistency.{IsConsistent}
use fluxip.EventStore.Commands.{CanWrite}

abbrev pub row : String → String → String → ℕ → Payload → AppendEventInput
row id aggregate_type aggregate_id n payload = record {
  id = id;
  aggregate_type = aggregate_type;
  aggregate_id = aggregate_id;
  account_id = "A";
  expected_sequence_number = n;
  type = "t";
  source = "s";
  time = "now";
  payload = payload;
}

abbrev pub id_taken : String → Table → Bool
id_taken id table = any (λ (x : StoredEvent). x.id == id) table

abbrev pub others_own : ReadStreamParams → Table → Bool
others_own p table =
    any
      (λ (x : StoredEvent).
        x.aggregate_type == p.aggregate_type
        && x.aggregate_id == p.aggregate_id
        && not (x.account_id == p.account_id))
      table

new_id_lem :
    (id : String) (table : Table)
    → id_taken id table ≡ false
    → (x : StoredEvent) → In x table
    → x.id ≢ id
new_id_lem id table h x i e =
    ground (arith, any_of_In (λ (y : StoredEvent). y.id == id) x table i ((eq_iff x.id id).1 e))

own_lem :
    (p : ReadStreamParams) (table : Table)
    → others_own p table ≡ false
    → (x : StoredEvent) → In x table
    → x.aggregate_type ≡ p.aggregate_type
    → x.aggregate_id ≡ p.aggregate_id
    → x.account_id ≡ p.account_id
own_lem p table h x i t a = elim (Bool-cases (x.account_id == p.account_id)) [
  | inl e ↦ (eq_iff x.account_id p.account_id).0 e
  | inr e ↦ cc (
    h,
    any_of_In
        (λ (y : StoredEvent).
          y.aggregate_type == p.aggregate_type
          && y.aggregate_id == p.aggregate_id
          && not (y.account_id == p.account_id))
        x table i
        (rw
          (
            (eq_iff x.aggregate_type p.aggregate_type).1 t,
            (eq_iff x.aggregate_id p.aggregate_id).1 a,
            e,
          )
          refl),
  )
]

pub CanWrite-of :
    (p : ReadStreamParams) (id : String) (table : Table)
    → IsConsistent table
    → id_taken id table ≡ false
    → others_own p table ≡ false
    → CanWrite p id table
CanWrite-of p id table c i o = record {
  consistent = c;
  new_id = new_id_lem id table i;
  own = own_lem p table o;
}
