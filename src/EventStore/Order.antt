-- ===== src/EventStore/Order.antt =====
-- `ORDER BY sequence_number`: what the order keeps, and where a newest row lands.
use fluxip.Base.{
  suc, ◌≤◌, ◌≡◌, refl, ap, ◌∙◌, ◌⊎◌, inl, inr, List, [], ◌∷◌, ◌++◌, arith, leb, Bool-cases, length,
  In,
}
use fluxip.Event.{StoredEvent}
use fluxip.EventStore.{insert_by_sequence, order_by_sequence}

In-insert_by_sequence :
    (a e : StoredEvent) (xs : List StoredEvent) → In a (insert_by_sequence e xs) → (a ≡ e) ⊎ In a xs
unfolding insert_by_sequence
In-insert_by_sequence a e [] h = h
In-insert_by_sequence a e (x ∷ xs) h = ground (arith, In-insert_by_sequence a e xs)

insert_by_sequence_self : (e : StoredEvent) (xs : List StoredEvent) → In e (insert_by_sequence e xs)
unfolding insert_by_sequence
insert_by_sequence_self e [] = inl refl
insert_by_sequence_self e (x ∷ xs) = elim (Bool-cases (leb e.sequence_number x.sequence_number)) [
  | inl y ↦ rw y (inl refl)
  | inr n ↦ rw n (inr (insert_by_sequence_self e xs))
]

insert_by_sequence_keeps :
    (a e : StoredEvent) (xs : List StoredEvent) → In a xs → In a (insert_by_sequence e xs)
unfolding insert_by_sequence
insert_by_sequence_keeps a e [] h = elim h [ ]
insert_by_sequence_keeps a e (x ∷ xs) h =
    elim (Bool-cases (leb e.sequence_number x.sequence_number)) [
      | inl y ↦ rw y (inr h)
      | inr n ↦ rw n (elim h [ inl p ↦ inl p | inr p ↦ inr (insert_by_sequence_keeps a e xs p) ])
    ]

-- The order neither loses nor adds a row.
pub In-order_by_sequence :
    (a : StoredEvent) (xs : List StoredEvent) → In a (order_by_sequence xs) → In a xs
unfolding order_by_sequence
In-order_by_sequence a [] h = h
In-order_by_sequence a (x ∷ xs) h = elim (In-insert_by_sequence a x (order_by_sequence xs) h) [
  | inl p ↦ inl p
  | inr p ↦ inr (In-order_by_sequence a xs p)
]

pub In-order_by_sequence_of :
    (a : StoredEvent) (xs : List StoredEvent) → In a xs → In a (order_by_sequence xs)
unfolding order_by_sequence
In-order_by_sequence_of a [] h = h
In-order_by_sequence_of a (x ∷ xs) (inl p) = rw p (insert_by_sequence_self x (order_by_sequence xs))
In-order_by_sequence_of a (x ∷ xs) (inr p) =
    insert_by_sequence_keeps a x (order_by_sequence xs) (In-order_by_sequence_of a xs p)

length-insert_by_sequence :
    (e : StoredEvent) (xs : List StoredEvent) → length (insert_by_sequence e xs) ≡ suc (length xs)
unfolding insert_by_sequence
length-insert_by_sequence e [] = refl
length-insert_by_sequence e (x ∷ xs) = ground (arith, length-insert_by_sequence e xs)

pub length-order_by_sequence : (xs : List StoredEvent) → length (order_by_sequence xs) ≡ length xs
unfolding order_by_sequence
length-order_by_sequence [] = refl
length-order_by_sequence (x ∷ xs) =
    length-insert_by_sequence x (order_by_sequence xs) ∙ ap suc (length-order_by_sequence xs)

insert_by_sequence-append :
    (x e : StoredEvent) (xs : List StoredEvent)
    → x.sequence_number ≤ e.sequence_number
    → insert_by_sequence x (xs ++ e ∷ []) ≡ insert_by_sequence x xs ++ e ∷ []
unfolding insert_by_sequence
insert_by_sequence-append x e [] h = ground arith
insert_by_sequence-append x e (y ∷ ys) h = ground (arith, insert_by_sequence-append x e ys h)

-- A row whose number is the largest comes last.
pub order_by_sequence-append :
    (e : StoredEvent) (xs : List StoredEvent)
    → ((x : StoredEvent) → In x xs → x.sequence_number ≤ e.sequence_number)
    → order_by_sequence (xs ++ e ∷ []) ≡ order_by_sequence xs ++ e ∷ []
unfolding order_by_sequence
order_by_sequence-append e [] h = unfold insert_by_sequence in refl
order_by_sequence-append e (x ∷ xs) h =
    rw (order_by_sequence-append e xs (λ y i. h y (inr i)))
      (insert_by_sequence-append x e (order_by_sequence xs) (h x (inl refl)))
