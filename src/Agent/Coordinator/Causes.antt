-- ===== src/Agent/Coordinator/Causes.antt =====
-- The causes of a provider: those of its triggers, those handed to the publisher, those that wait.
use mathlib.Core.List.{append_assoc, append-nil}
use fluxip.Base.{
  String, ◌≡◌, refl, sym, ap, ◌∙◌, inl, inr, true, false, Option, none, some, List, [], ◌∷◌, ◌++◌,
  ◌==◌, eq_iff, arith, if◌then◌else◌, Bool-cases, lookup, lookup-put, lookup-remove, put, remove,
  distinct, contains-distinct, distinct-NoRepeats, last, init, init-last, last-ne-none,
}
use fluxip.Agent.Coordinator.{
  Pending, SnapshotCoordinator, schedule_all, schedule, PublishCall, taken, call_of,
}
use fluxip.Agent.Coordinator.Trace.{
  Op, Trace, in_progress, start, step, run_all, named_by, handed, waiting_in, waiting, caused_by,
  triggered, IsLive, IsSound, Allowed, AllAllowed, accounted, trigger, fire, finish,
}
use fluxip.Agent.Coordinator.Entries.{
  schedule_all-IsLive, waiting-schedule_all, IsLive-after_put, IsLive-after_remove, run_start_cases,
  again, run_end_cases,
}

named_by-call_of : (q : String) (entry : Pending) → named_by (call_of q entry) ≡ entry.causation_ids
named_by-call_of q entry = of_ids entry.causation_ids
  where
    of_last :
        (x : String) (xs : List String) (l : Option String)
        → last (x ∷ xs) ≡ l
        → init (x ∷ xs) ++ elim l [ none ↦ [] | some c ↦ c ∷ [] ] ≡ x ∷ xs
    of_last x xs none e = absurd (last-ne-none x xs e)
    of_last x xs (some c) e = init-last x xs e

    of_ids : (ids : List String) → init ids ++ elim (last ids) [ none ↦ [] | some c ↦ c ∷ [] ] ≡ ids
    of_ids [] = refl
    of_ids (x ∷ xs) = of_last x xs (last (x ∷ xs)) refl

handed-append :
    (p : String) (calls : List PublishCall) (call : PublishCall)
    → handed p (calls ++ call ∷ [])
      ≡ handed p calls ++ (if call.provider_id == p then named_by call else [])
unfolding handed
handed-append p [] call = ground (arith, append-nil (named_by call))
handed-append p (x ∷ xs) call = elim (Bool-cases (x.provider_id == p)) [
  | inl y ↦ rw (y, handed-append p xs call) (sym (append_assoc (named_by x) (handed p xs) _))
  | inr n ↦ rw (n, handed-append p xs call)
]

schedule_going :
    (account_id : String) (ids : List String) (cause : Option String) (c : SnapshotCoordinator)
    → c.stopped ≡ false
    → schedule account_id ids cause c
      ≡ record c { pending = schedule_all account_id cause (distinct ids) c.pending }
unfolding schedule
schedule_going account_id ids cause c g = rw g (ground arith)

step_trigger :
    (account_id : String) (ids : List String) (cause : Option String) (t : Trace)
    → IsSound t.coordinator
    → IsSound (step (trigger account_id ids cause) t).coordinator
      × ((p : String)
          → accounted p (step (trigger account_id ids cause) t)
            ≡ accounted p t ++ caused_by p (trigger account_id ids cause))
unfolding step
step_trigger account_id ids cause t h =
    rw (schedule_going account_id ids cause t.coordinator h.going) (
      record {
        alive = schedule_all-IsLive account_id cause (distinct ids) t.coordinator.pending h.alive;
        going = h.going;
      },
      λ p.
          rw
            (
              waiting-schedule_all account_id cause (distinct ids) t.coordinator.pending p
                  (distinct-NoRepeats ids),
              contains-distinct ids p,
            )
            (sym (append_assoc (handed p t.calls) (waiting p t.coordinator) _)),
    )

step_fire :
    (q : String) (t : Trace)
    → IsSound t.coordinator
    → Allowed (fire q) t.coordinator
    → IsSound (step (fire q) t).coordinator
      × ((p : String) → accounted p (step (fire q) t) ≡ accounted p t ++ [])
unfolding step
step_fire q t h a = elim (run_start_cases q t.coordinator h.going) [
  | inl e ↦
      rw e (record { alive = h.alive; going = h.going }, λ p. sym (append-nil (accounted p t)))
  | inr (entry, found, e) ↦ rw e (
    record {
      alive =
          IsLive-after_put q (taken entry) t.coordinator.pending (inr (refl, refl, inr refl))
            h.alive;
      going = h.going;
    },
    moved entry found,
  )
]
  where
    moved :
        (entry : Pending)
        → lookup q t.coordinator.pending ≡ some entry
        → (p : String)
        → handed p (t.calls ++ call_of q entry ∷ [])
            ++ waiting_in (lookup p (put q (taken entry) t.coordinator.pending))
          ≡ accounted p t ++ []
    moved entry found p = elim (Bool-cases (q == p)) [
      | inl y ↦
          let e : q ≡ p = (eq_iff q p).0 y in
          let w : lookup p t.coordinator.pending ≡ some entry = rw e at found in
          rw (handed-append p t.calls (call_of q entry), lookup-put, y, named_by-call_of q entry, w)
      | inr n ↦ rw (
        handed-append p t.calls (call_of q entry),
        lookup-put,
        n,
        append-nil (handed p t.calls),
        append-nil,
      )
    ]

idle_ids :
    (entry : Pending)
    → IsLive (some entry)
    → entry.running ≡ true
    → entry.dirty ≡ false
    → entry.causation_ids ≡ []
idle_ids entry h r d = ground arith

same_entry :
    (q : String) (c : SnapshotCoordinator) (entry : Pending)
    → lookup q c.pending ≡ some entry
    → Allowed (finish q) c
    → entry.running ≡ true
same_entry q c entry found a = let r : in_progress (some entry) ≡ true = rw found at a in r

module _ (q : String) (t : Trace) (entry : Pending)
    (found : lookup q t.coordinator.pending ≡ some entry) where
  kept_waiting :
      (p : String)
      → handed p t.calls ++ waiting_in (lookup p (put q (again entry) t.coordinator.pending))
        ≡ accounted p t ++ []
  kept_waiting p = elim (Bool-cases (q == p)) [
    | inl y ↦
        let w : lookup p t.coordinator.pending ≡ some entry = rw ((eq_iff q p).0 y) at found in
        rw (lookup-put, y, w, append-nil)
    | inr n ↦ rw (lookup-put, n, append-nil)
  ]

  dropped_waiting :
      entry.causation_ids ≡ []
      → (p : String)
      → handed p t.calls ++ waiting_in (lookup p (remove q t.coordinator.pending))
        ≡ accounted p t ++ []
  dropped_waiting idle p = elim (Bool-cases (q == p)) [
    | inl y ↦
        let w : lookup p t.coordinator.pending ≡ some entry = rw ((eq_iff q p).0 y) at found in
        rw (lookup-remove, y, w, idle) (sym (append-nil _))
    | inr n ↦ rw (lookup-remove, n) (sym (append-nil _))
  ]

step_finish :
    (q : String) (t : Trace)
    → IsSound t.coordinator
    → Allowed (finish q) t.coordinator
    → IsSound (step (finish q) t).coordinator
      × ((p : String) → accounted p (step (finish q) t) ≡ accounted p t ++ [])
unfolding step
step_finish q t h a = elim (run_end_cases q t.coordinator h.going) [
  | inl e ↦
      rw e (record { alive = h.alive; going = h.going }, λ p. sym (append-nil (accounted p t)))
  | inr (entry, found, inl (d, e)) ↦ rw e (
    record {
      alive = IsLive-after_put q (again entry) t.coordinator.pending (inl (refl, refl)) h.alive;
      going = h.going;
    },
    kept_waiting q t entry found,
  )
  | inr (entry, found, inr (d, e)) ↦ rw e (
    record { alive = IsLive-after_remove q t.coordinator.pending h.alive; going = h.going },
    dropped_waiting q t entry found
        (idle_ids entry (rw found at (h.alive q)) (same_entry q t.coordinator entry found a) d),
  )
]

step-accounted :
    (o : Op) (t : Trace)
    → IsSound t.coordinator
    → Allowed o t.coordinator
    → IsSound (step o t).coordinator
      × ((p : String) → accounted p (step o t) ≡ accounted p t ++ caused_by p o)
step-accounted (trigger account_id ids cause) t h a = step_trigger account_id ids cause t h
step-accounted (fire q) t h a = step_fire q t h a
step-accounted (finish q) t h a = step_finish q t h a

-- For every sequence of triggers, timers that fire and runs that end: the causes that the publisher
-- was given for a provider, with those that still wait, are the causes of the triggers that name the
-- provider, each once and in the order of their arrival. What waits has its timer set, or belongs to
-- a run that will set it (its entry is dirty).
pub run_all-accounted :
    (os : List Op) (t : Trace)
    → IsSound t.coordinator
    → AllAllowed os t
    → IsSound (run_all os t).coordinator
      × ((p : String) → accounted p (run_all os t) ≡ accounted p t ++ triggered p os)
unfolding run_all triggered
run_all-accounted [] t h a = (h, λ p. sym (append-nil (accounted p t)))
run_all-accounted (o ∷ os) t h (a, rest) =
    let (h', e) = step-accounted o t h a in
    let (h'', e') = run_all-accounted os (step o t) h' rest in
    (
      h'',
      λ p.
          e' p
          ∙ ap (λ l. l ++ triggered p os) (e p)
          ∙ append_assoc (accounted p t) (caused_by p o) _,
    )

-- A new coordinator is sound.
pub start-IsSound : IsSound start.coordinator
start-IsSound = record { alive = λ p. unfold lookup in tt; going = refl }
