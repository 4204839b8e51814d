-- ===== src/Agent/Coordinator/Entries.antt =====
-- What the operations of the coordinator do to the entry of one provider.
use mathlib.Core.List.{append-nil}
use fluxip.Base.{
  String, ◌≡◌, refl, sym, ap, ◌∙◌, ◌⊎◌, inl, inr, Bool, true, false, Option, none, some, List, [],
  ◌∷◌, ◌++◌, ◌==◌, eq_iff, arith, if◌then◌else◌, Bool-cases, Option-cases, Map, lookup, lookup-put,
  lookup-remove, put, remove, NoRepeats, contains,
}
use fluxip.Agent.Coordinator.{
  Pending, SnapshotCoordinator, pushed, schedule_entry, schedule_all, taken, call_of, run_start,
  run_end,
}
use fluxip.Agent.Coordinator.Trace.{waiting_in, IsLive}

pub schedule_entry-IsLive :
    (account_id : String) (cause : Option String) (found : Option Pending)
    → IsLive found
    → IsLive (some (schedule_entry account_id cause found))
unfolding schedule_entry
schedule_entry-IsLive account_id cause none h = ground arith
schedule_entry-IsLive account_id cause (some e) h = ground arith

pub waiting-schedule_entry :
    (account_id : String) (cause : Option String) (found : Option Pending)
    → (schedule_entry account_id cause found).causation_ids ≡ waiting_in found ++ pushed cause
unfolding schedule_entry
waiting-schedule_entry account_id cause none = refl
waiting-schedule_entry account_id cause (some e) = ground arith

module _ (account_id : String) (cause : Option String) where
  pub schedule_all-IsLive :
      (ps : List String) (m : Map Pending)
      → ((p : String) → IsLive (lookup p m))
      → (p : String) → IsLive (lookup p (schedule_all account_id cause ps m))
  unfolding schedule_all
  schedule_all-IsLive [] m h p = h p
  schedule_all-IsLive (q ∷ qs) m h p = schedule_all-IsLive qs _ after p
    where
      after :
          (p : String) → IsLive (lookup p (put q (schedule_entry account_id cause (lookup q m)) m))
      after p = rw lookup-put (elim (Bool-cases (q == p)) [
        | inl y ↦ rw y (schedule_entry-IsLive account_id cause (lookup q m) (h q))
        | inr n ↦ rw n (h p)
      ])

  pub waiting-schedule_all :
      (ps : List String) (m : Map Pending) (p : String)
      → NoRepeats ps
      → waiting_in (lookup p (schedule_all account_id cause ps m))
        ≡ waiting_in (lookup p m) ++ (if contains ps p then pushed cause else [])
  unfolding schedule_all
  waiting-schedule_all [] m p u = sym (append-nil _)
  waiting-schedule_all (q ∷ qs) m p u =
      waiting-schedule_all qs (put q (schedule_entry account_id cause (lookup q m)) m) p u.1
      ∙ elim (Bool-cases (q == p)) [
        | inl y ↦
            let e : q ≡ p = (eq_iff q p).0 y in
            let f : contains qs p ≡ false = rw e at u.0 in
            rw (lookup-put, y, f, append-nil)
              (waiting-schedule_entry account_id cause (lookup q m)
                ∙ ap (λ k. waiting_in (lookup k m) ++ pushed cause) e)
        | inr n ↦ rw (lookup-put, n)
      ]

-- A set entry, and a removed one.
pub IsLive-after_put :
    (q : String) (entry : Pending) (m : Map Pending)
    → IsLive (some entry)
    → ((p : String) → IsLive (lookup p m))
    → (p : String) → IsLive (lookup p (put q entry m))
IsLive-after_put q entry m e h p = rw lookup-put (if_live (q == p))
  where
    if_live : (b : Bool) → IsLive (if b then some entry else lookup p m)
    if_live true = e
    if_live false = h p

pub IsLive-after_remove :
    (q : String) (m : Map Pending)
    → ((p : String) → IsLive (lookup p m))
    → (p : String) → IsLive (lookup p (remove q m))
IsLive-after_remove q m h p = rw lookup-remove (if_live (q == p))
  where
    if_live : (b : Bool) → IsLive (if b then none else lookup p m)
    if_live true = tt
    if_live false = h p

pub run_start_cases :
    (q : String) (c : SnapshotCoordinator)
    → c.stopped ≡ false
    → (run_start q c ≡ (c, none))
      ⊎ ((entry : Pending) × (lookup q c.pending ≡ some entry)
          × (run_start q c
              ≡ (record c { pending = put q (taken entry) c.pending }, some (call_of q entry))))
unfolding run_start
run_start_cases q c g = elim (Option-cases (lookup q c.pending)) [
  | inl e ↦ inl (rw e)
  | inr (entry, e) ↦ inr (entry, e, rw (e, g))
]

-- The entry of a run that ended dirty: its timer is set again.
abbrev pub again : Pending → Pending
again entry = record entry { running = false; timer = true }

pub run_end_cases :
    (q : String) (c : SnapshotCoordinator)
    → c.stopped ≡ false
    → (run_end q c ≡ c)
      ⊎ ((entry : Pending) × (lookup q c.pending ≡ some entry)
          × (((entry.dirty ≡ true)
                × (run_end q c ≡ record c { pending = put q (again entry) c.pending }))
              ⊎ ((entry.dirty ≡ false)
                  × (run_end q c ≡ record c { pending = remove q c.pending }))))
unfolding run_end
run_end_cases q c g = elim (Option-cases (lookup q c.pending)) [
  | inl e ↦ inl (rw e)
  | inr (entry, e) ↦ inr (
    entry,
    e,
    elim (Bool-cases entry.dirty) [ inl d ↦ inl (d, rw (e, d, g)) | inr d ↦ inr (d, rw (e, d)) ],
  )
]
