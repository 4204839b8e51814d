-- ===== src/Agent/Session/Life.antt =====
-- The life of a session: the inputs that its transport and its timer give, in any order.
use fluxip.Base.{
  ap, ◌∙◌, if_true, ℕ, ◌≤◌, ◌≡◌, refl, inl, inr, true, Option, List, [], ◌∷◌, arith, Bool-cases,
  truthy, not, ◌&&◌, ◌||◌,
}
use fluxip.Event.{Result, ok, err, StoredEvent}
use fluxip.Event.Provider.{TraefikProviderEvent}
use fluxip.Aggregates.Provider.{TraefikProviderState}
use fluxip.Agent.Protocol.{AgentMessage, CloseReason}
use fluxip.Agent.Registry.{SessionRegistry}
use fluxip.Agent.Session.{Done, Deps, Session, new_session, append, recorded}
use fluxip.Agent.Session.Handler.{
  caught, swallowed, process, handle, tick, on_closed, end_reason, record_disconnect,
}
use fluxip.Agent.Session.Calls.{
  is_close, is_connect, is_disconnect, count, IsOrderly, terminate-IsOrderly, caught-IsOrderly,
  disconnect-IsOrderly,
}
use fluxip.Agent.Session.Messages.{process-IsOrderly}

pub data Input : Type 0 where
  message_comes : AgentMessage → Input
  timer_ticks : Input
  transport_ends : Option CloseReason → Input

abbrev pub step : {S : Type 0} → Deps S → ℕ → Input → Session S → Session S
step deps now (message_comes a) m = handle deps now a m
step deps now timer_ticks m = tick deps now m
step deps now (transport_ends reason) m = (on_closed deps now reason m).1

-- A run of inputs, each with the clock when it comes.
abbrev pub run : {S : Type 0} → Deps S → List (ℕ × Input) → Session S → Session S
run deps [] m = m
run deps ((now, input) ∷ inputs) m = run deps inputs (step deps now input m)

module _ {S : Type 0} (deps : Deps S) where
  tick-IsOrderly : (now : ℕ) (m : Session S) → IsOrderly m → IsOrderly (tick deps now m)
  unfolding IsOrderly tick
  tick-IsOrderly now m o = ground (arith, terminate-IsOrderly _ m o)

  -- The append of the disconnect, from a session that recorded none and has just set the flag.
  record_disconnect-IsOrderly :
      (now : ℕ) (reason : CloseReason) (r : Result TraefikProviderState) (m : Session S)
      → count is_disconnect m.calls ≡ 0
      → m.disconnect_recorded ≡ true
      → IsOrderly m
      → IsOrderly (record_disconnect deps now reason r m).1
  unfolding record_disconnect
  record_disconnect-IsOrderly now reason (err f) m z seen o = o
  record_disconnect-IsOrderly now reason (ok state) m z seen o =
      elim (Bool-cases (truthy state.provider_id)) [
        | inl e ↦ rw e (disconnect-IsOrderly deps _ m refl refl z seen o)
        | inr e ↦ rw e o
      ]

  on_closed-IsOrderly :
      (now : ℕ) (reason : Option CloseReason) (m : Session S)
      → IsOrderly m
      → IsOrderly (on_closed deps now reason m).1
  unfolding IsOrderly on_closed
  on_closed-IsOrderly now reason m o = elim (Bool-cases (m.is_closed && m.is_finished)) [
    | inl e ↦ rw e o
    | inr e ↦ rw e (elim (Bool-cases (not m.connected_recorded || m.disconnect_recorded)) [
      | inl d ↦ rw d (ground arith)
      | inr d ↦ rw d (
          record_disconnect-IsOrderly now (end_reason reason m.close_reason)
            (deps.store.load m.world) _ (ground arith) refl (ground arith))
    ])
  ]

  step-IsOrderly :
      (now : ℕ) (input : Input) (m : Session S) → IsOrderly m → IsOrderly (step deps now input m)
  unfolding handle
  step-IsOrderly now (message_comes a) m o =
      caught-IsOrderly deps (process deps now a m) (process-IsOrderly deps now a m o)
  step-IsOrderly now timer_ticks m o = tick-IsOrderly now m o
  step-IsOrderly now (transport_ends reason) m o = on_closed-IsOrderly now reason m o

  run-IsOrderly :
      (inputs : List (ℕ × Input)) (m : Session S) → IsOrderly m → IsOrderly (run deps inputs m)
  run-IsOrderly [] m o = o
  run-IsOrderly ((now, input) ∷ inputs) m o =
      run-IsOrderly inputs (step deps now input m) (step-IsOrderly now input m o)

  -- Whatever messages, ticks and ends of the transport come from a new session on, in any order and
  -- whatever the store and the publisher answer: the handler closes its channel at most once, it
  -- asks the store to append at most one connect, and as many disconnects as connects at most.
  pub run-calls :
      (now : ℕ) (registry : SessionRegistry) (world : S) (inputs : List (ℕ × Input))
      → let calls = (run deps inputs (new_session now registry world)).calls in
        (count is_close calls ≤ 1)
        × (count is_connect calls ≤ 1)
        × (count is_disconnect calls ≤ count is_connect calls)
  unfolding IsOrderly new_session
  run-calls now registry world inputs =
      let o = run-IsOrderly inputs (new_session now registry world) fresh in ground arith
    where
      fresh : IsOrderly (new_session now registry world)
      fresh = ground arith

module _ {S : Type 0} (deps : Deps S) where
  -- A closed session does nothing more, whatever comes.
  run-closed :
      (inputs : List (ℕ × Input)) (m : Session S)
      → m.is_closed ≡ true
      → m.is_finished ≡ true
      → run deps inputs m ≡ m
  unfolding handle process caught tick on_closed
  run-closed [] m c f = refl
  run-closed ((now, input) ∷ inputs) m c f =
      ap (run deps inputs) (step-closed input) ∙ run-closed inputs m c f
    where
      step-closed : (input : Input) → step deps now input m ≡ m
      step-closed (message_comes a) = ap (caught deps) (if_true m.is_closed _ _ c)
      step-closed timer_ticks = if_true (not m.heartbeat_timer || m.is_closed) _ _ (ground arith)
      step-closed (transport_ends reason) =
          ap (λ (r : Done × Session S). r.1)
            (if_true (m.is_closed && m.is_finished) _ _ (ground arith))

  abbrev HasEnded : Session S → Type 0
  HasEnded m = (m.is_closed ≡ true) × (m.is_finished ≡ true)

  append-HasEnded :
      (e : TraefikProviderEvent) (m : Session S)
      → HasEnded m
      → HasEnded (swallowed deps (append deps e m)).1
  unfolding append recorded swallowed
  append-HasEnded e m h = by_result (deps.store.append e m.world)
    where
      by_result : (r : Result StoredEvent × S) → HasEnded (swallowed deps (recorded e r m)).1
      by_result (ok _, s) = h
      by_result (err _, s) = h

  record_disconnect-HasEnded :
      (now : ℕ) (why : CloseReason) (r : Result TraefikProviderState) (m : Session S)
      → HasEnded m
      → HasEnded (record_disconnect deps now why r m).1
  unfolding record_disconnect
  record_disconnect-HasEnded now why (err _) m h = h
  record_disconnect-HasEnded now why (ok state) m h = elim (Bool-cases (truthy state.provider_id)) [
    | inl e ↦ rw e (append-HasEnded _ m h)
    | inr e ↦ rw e h
  ]

  on_closed-HasEnded :
      (now : ℕ) (reason : Option CloseReason) (m : Session S)
      → HasEnded (on_closed deps now reason m).1
  unfolding on_closed
  on_closed-HasEnded now reason m = elim (Bool-cases (m.is_closed && m.is_finished)) [
    | inl e ↦ rw e (ground arith)
    | inr e ↦ rw e (elim (Bool-cases (not m.connected_recorded || m.disconnect_recorded)) [
      | inl d ↦ rw d (refl, refl)
      | inr d ↦ rw d (
          record_disconnect-HasEnded now (end_reason reason m.close_reason)
            (deps.store.load m.world) _ (refl, refl))
    ])
  ]

  -- Once the transport has ended, whatever comes changes nothing: no call, no state, no registry.
  pub run-ended :
      (now : ℕ) (reason : Option CloseReason) (inputs : List (ℕ × Input)) (m : Session S)
      → let ended = step deps now (transport_ends reason) m in
        (run deps inputs ended ≡ ended) × (ended.is_closed ≡ true)
  run-ended now reason inputs m =
      let (c, f) = on_closed-HasEnded now reason m in
      (run-closed inputs (on_closed deps now reason m).1 c f, c)
