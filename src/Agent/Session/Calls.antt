-- ===== src/Agent/Session/Calls.antt =====
-- The invariant on the calls and the flags of a session, for the parts of the handler.
use fluxip.Base.{
  ℕ, ◌+◌, ◌≤◌, ◌≡◌, refl, Bool, true, false, Option, none, some, List, [], ◌∷◌, is_some,
  if◌then◌else◌, arith,
}
use fluxip.Event.{Result, ok, err, StoredEvent}
use fluxip.Event.Provider.{TraefikProviderEvent, agent_connected, agent_disconnected}
use fluxip.Aggregates.Provider.{TraefikProviderState}
use fluxip.Agent.Protocol.{CloseReason, SnapshotPayload}
use fluxip.Agent.Registry.{ActiveSession, SessionRegistry, register}
use fluxip.Agent.Session.{
  Done, Deps, Session, Call, close, record_event, close_with, terminate, dismiss, snapshot_sent,
  recorded, and_then, append, greet, greet_with,
}
use fluxip.Agent.Session.Handler.{take_over, own, set_connected, caught, swallowed}

abbrev pub bit : Bool → ℕ
bit true = 1
bit false = 0

abbrev pub is_close : Call → Bool
is_close (close _) = true
is_close _ = false

abbrev pub is_connect : Call → Bool
is_connect (record_event (agent_connected _)) = true
is_connect _ = false

abbrev pub is_disconnect : Call → Bool
is_disconnect (record_event (agent_disconnected _)) = true
is_disconnect _ = false

abbrev pub count : (Call → Bool) → List Call → ℕ
count p [] = 0
count p (c ∷ calls) = count p calls + bit (p c)

-- The flags tell what was called.
unfoldable pub IsOrderly : {S : Type 0} → Session S → Type 0
IsOrderly m =
    (count is_close m.calls ≡ bit (is_some m.close_reason))
    × (count is_connect m.calls ≤ bit m.hello_seen)
    × (bit m.connected_recorded ≤ count is_connect m.calls)
    × (count is_disconnect m.calls ≤ bit m.disconnect_recorded)
    × (bit m.disconnect_recorded ≤ bit m.connected_recorded)
    × (m.is_finished ≡ m.is_closed)

module _ {S : Type 0} where
  pub terminate-IsOrderly :
      (reason : CloseReason) (m : Session S) → IsOrderly m → IsOrderly (terminate reason m)
  unfolding IsOrderly terminate close_with
  terminate-IsOrderly reason m h = by_reason m.close_reason h.0
    where
      by_reason :
          (was : Option CloseReason)
          → count is_close m.calls ≡ bit (is_some was)
          → IsOrderly (close_with was reason (record m { close_reason = was }))
      by_reason none e = ground arith
      by_reason (some r) e = ground arith

  pub if-IsOrderly :
      (b : Bool) (x y : Done × Session S)
      → (b ≡ true → IsOrderly x.1)
      → (b ≡ false → IsOrderly y.1)
      → IsOrderly (if b then x else y).1
  if-IsOrderly true x y then_kept else_kept = then_kept refl
  if-IsOrderly false x y then_kept else_kept = else_kept refl

  pub snapshot_sent-IsOrderly :
      (r : Result (Option SnapshotPayload) × S) (m : Session S)
      → IsOrderly m
      → IsOrderly (snapshot_sent r m).1
  unfolding IsOrderly snapshot_sent
  snapshot_sent-IsOrderly (err f, s) m h = h
  snapshot_sent-IsOrderly (ok none, s) m h = h
  snapshot_sent-IsOrderly (ok (some p), s) m h = ground arith

  pub and_then-IsOrderly :
      (r : Done × Session S) (rest : Session S → Done × Session S)
      → IsOrderly r.1
      → ((m : Session S) → IsOrderly m → IsOrderly (rest m).1)
      → IsOrderly (and_then r rest).1
  unfolding and_then
  and_then-IsOrderly (err f, m) rest h k = h
  and_then-IsOrderly (ok _, m) rest h k = k m h

  -- An append of an event that is neither a connect nor a disconnect.
  pub recorded-IsOrderly :
      (e : TraefikProviderEvent) (r : Result StoredEvent × S) (m : Session S)
      → is_connect (record_event e) ≡ false
      → is_disconnect (record_event e) ≡ false
      → IsOrderly m
      → IsOrderly (recorded e r m).1
  unfolding IsOrderly recorded
  recorded-IsOrderly e (err f, s) m c d h = rw c (rw d (ground arith))
  recorded-IsOrderly e (ok _, s) m c d h = rw c (rw d (ground arith))

module _ {S : Type 0} (deps : Deps S) where
  pub greet-IsOrderly :
      (accepted : ℕ) (m : Session S) → IsOrderly m → IsOrderly (greet deps accepted m).1
  unfolding IsOrderly greet greet_with
  greet-IsOrderly accepted m h = by_load (deps.store.load_active m.world)
    where
      by_load :
          (loaded : Result (Option TraefikProviderState))
          → IsOrderly (greet_with deps accepted loaded m).1
      by_load (err f) = h
      by_load (ok state) = ground arith

  pub caught-IsOrderly : (r : Done × Session S) → IsOrderly r.1 → IsOrderly (caught deps r)
  unfolding caught
  caught-IsOrderly (ok _, m) h = h
  caught-IsOrderly (err f, m) h = terminate-IsOrderly _ m h

  -- The append of the connect, from a session without one.
  pub connect-IsOrderly :
      (e : TraefikProviderEvent) (m : Session S)
      → is_connect (record_event e) ≡ true
      → is_disconnect (record_event e) ≡ false
      → m.hello_seen ≡ true
      → count is_connect m.calls ≡ 0
      → IsOrderly m
      → IsOrderly (and_then (append deps e m) (set_connected deps)).1
  unfolding IsOrderly and_then append recorded
  connect-IsOrderly e m c d seen none_yet h = by_result (deps.store.append e m.world)
    where
      by_result :
          (r : Result StoredEvent × S)
          → IsOrderly (and_then (recorded e r m) (set_connected deps)).1
      by_result (ok _, s) = rw c (rw d (rw seen (ground arith)))
      by_result (err f, s) = rw c (rw d (rw seen (ground arith)))

  pub disconnect-IsOrderly :
      (e : TraefikProviderEvent) (m : Session S)
      → is_connect (record_event e) ≡ false
      → is_disconnect (record_event e) ≡ true
      → count is_disconnect m.calls ≡ 0
      → m.disconnect_recorded ≡ true
      → IsOrderly m
      → IsOrderly (swallowed deps (append deps e m)).1
  unfolding IsOrderly append recorded swallowed
  disconnect-IsOrderly e m c d z seen h = by_result (deps.store.append e m.world)
    where
      by_result : (r : Result StoredEvent × S) → IsOrderly (swallowed deps (recorded e r m)).1
      by_result (ok _, s) = rw c (rw d (rw seen (ground arith)))
      by_result (err f, s) = rw c (rw d (rw seen (ground arith)))

  pub take_over-IsOrderly :
      (now : ℕ) (m : Session S)
      → IsOrderly m
      → IsOrderly (take_over deps now m)
        × (count is_connect (take_over deps now m).calls ≡ count is_connect m.calls)
        × ((take_over deps now m).hello_seen ≡ true)
  unfolding IsOrderly take_over dismiss
  take_over-IsOrderly now m h = by_replaced (register (own deps now) m.registry)
    where
      by_replaced :
          (r : Option ActiveSession × SessionRegistry)
          → let m1 = dismiss r.0 (record m { hello_seen = true; registry = r.1 }) in
            IsOrderly m1
            × (count is_connect m1.calls ≡ count is_connect m.calls)
            × (m1.hello_seen ≡ true)
      by_replaced (none, registry) = ground arith
      by_replaced (some old, registry) = ground arith
