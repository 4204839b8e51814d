-- ===== src/Deliveries/Rows.antt =====
-- Which row a change gets, of all that the events of a provider name it in.
use fluxip.Base.{
  ◌≡◌, refl, ap, ◌∙◌, String, Bool, true, false, ◌&&◌, Option, none, some, List, [], ◌∷◌, ◌==◌,
  eq_iff, arith, Map, lookup, lookup-put, or_else, if◌then◌else◌, Bool-cases, inl, inr,
}
use fluxip.Deliveries.{
  combined, is_delivered, TraefikDelivery, Named, keeps_delivered, put_row, put_rows,
  DeliveryActionRef, DeliveryProvider, rows_for, named_rows,
}
use fluxip.EventStore.{order_by_sequence}

-- The last row that a test passes.
abbrev pub last_where : (Named → Bool) → List Named → Option TraefikDelivery
last_where p [] = none
last_where p (n ∷ ns) = or_else (last_where p ns) (if p n then some n.1 else none)

abbrev pub names : String → Named → Bool
names c n = n.0 == c

abbrev pub delivers : String → Named → Bool
delivers c n = n.0 == c && is_delivered n.1.kind

-- What a change has that another row may only follow if it is delivered.
settled_by :
    Option TraefikDelivery
    → Option TraefikDelivery
    → Option TraefikDelivery
    → Option TraefikDelivery
settled_by (some d) named old = some d
settled_by none named old = if keeps_delivered old combined then old else or_else named old

settled_none : (d n : Option TraefikDelivery) → settled_by d n none ≡ or_else d n
unfolding settled_by keeps_delivered
settled_none (some d) n = refl
settled_none none none = refl
settled_none none (some n) = refl

settled_step :
    (d n old : Option TraefikDelivery) (row : TraefikDelivery) (named : Bool)
    → settled_by d n
        (if named then (if keeps_delivered old row.kind then old else some row) else old)
      ≡ settled_by
          (or_else d (if named && is_delivered row.kind then some row else none))
          (or_else n (if named then some row else none))
          old
unfolding settled_by keeps_delivered
settled_step (some d) n old row named = refl
settled_step none none old row false = refl
settled_step none (some n) old row false = refl
settled_step none none none row true = elim (Bool-cases (is_delivered row.kind)) [
  | inl e ↦ rw e refl
  | inr e ↦ rw e refl
]
settled_step none none (some old) row true = elim (Bool-cases (is_delivered row.kind)) [
  | inl e ↦ elim (Bool-cases (is_delivered old.kind)) [
    | inl f ↦ rw (e, f, e) refl
    | inr f ↦ rw (e, f, e) refl
  ]
  | inr e ↦ elim (Bool-cases (is_delivered old.kind)) [
    | inl f ↦ rw (e, f, f) refl
    | inr f ↦ rw (e, f, e) refl
  ]
]
settled_step none (some n) none row true = elim (Bool-cases (is_delivered row.kind)) [
  | inl e ↦ rw e refl
  | inr e ↦ rw e refl
]
settled_step none (some n) (some old) row true = elim (Bool-cases (is_delivered row.kind)) [
  | inl e ↦ elim (Bool-cases (is_delivered old.kind)) [
    | inl f ↦ rw (e, f, e) refl
    | inr f ↦ rw (e, f, e) refl
  ]
  | inr e ↦ elim (Bool-cases (is_delivered old.kind)) [
    | inl f ↦ rw (e, f, f) refl
    | inr f ↦ rw (e, f, e) refl
  ]
]

module _ (wanted : String → Bool) (c : String) (asked : wanted c ≡ true) where
  lookup-put_row :
      (rows : Map TraefikDelivery) (n : Named)
      → lookup c (put_row wanted rows n) ≡ (
          if n.0 == c
          then (if keeps_delivered (lookup c rows) n.1.kind then lookup c rows else some n.1)
          else lookup c rows)
  unfolding put_row
  lookup-put_row rows n = elim (Bool-cases (n.0 == c)) [
    | inl e ↦
        let same = (eq_iff n.0 c).0 e in
        ground (
          arith,
          lookup-put n.0 c n.1 rows,
          ap wanted same,
          ap (λ (k : String). lookup k rows) same,
        )
    | inr e ↦ ground (arith, lookup-put n.0 c n.1 rows)
  ]

  lookup-put_rows_from :
      (ns : List Named) (rows : Map TraefikDelivery)
      → lookup c (put_rows wanted rows ns)
        ≡ settled_by (last_where (delivers c) ns) (last_where (names c) ns) (lookup c rows)
  unfolding put_rows settled_by keeps_delivered
  lookup-put_rows_from [] rows = ground arith
  lookup-put_rows_from (n ∷ ns) rows =
      lookup-put_rows_from ns (put_row wanted rows n)
      ∙ rw (lookup-put_row rows n) (
          settled_step (last_where (delivers c) ns) (last_where (names c) ns) (lookup c rows) n.1
            (n.0 == c))

  lookup-put_rows :
      (ns : List Named)
      → lookup c (put_rows wanted [] ns)
        ≡ or_else (last_where (delivers c) ns) (last_where (names c) ns)
  unfolding lookup
  lookup-put_rows ns =
      lookup-put_rows_from ns []
      ∙ settled_none (last_where (delivers c) ns) (last_where (names c) ns)

  -- Of all rows that the events of an action's provider name for a change that is asked for, in the
  -- order of the events, the change gets the last delivered one, or the last one where none is
  -- delivered, and no row where none is named.
  pub rows_for_lem :
      (action : DeliveryActionRef) (provider : DeliveryProvider)
      → let events = order_by_sequence provider.events in
        let ns = named_rows action provider events events in
        lookup c (rows_for wanted action (some provider))
        ≡ or_else (last_where (delivers c) ns) (last_where (names c) ns)
  unfolding rows_for
  rows_for_lem action provider = lookup-put_rows (
      named_rows action provider (order_by_sequence provider.events)
        (order_by_sequence provider.events))
