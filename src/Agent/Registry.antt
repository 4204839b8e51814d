-- ===== src/Agent/Registry.antt =====
-- backend/src/adapters/agent-grpc/session-registry.ts. What the methods do to channels is their
-- result: the messages sent and the closes asked for, each with its session.
use fluxip.Base.{
  ℕ, length, String, ◌≡◌, ◌≢◌, refl, Bool, true, false, not, Option, none, some, List, [], ◌∷◌, map,
  ◌==◌, eq_iff, eq_refl, arith, if◌then◌else◌, is_some, Map, lookup, put, remove, lookup-put,
  lookup-remove, filter,
}
use fluxip.Agent.Protocol.{AgentMessage}

-- The fields `sessionId` and `tokenId` are those of its channel.
pub record ActiveSession : Type 0 where
  pub provider_id : String
  pub account_id : String
  pub session_id : String
  pub token_id : String
  pub connected_at : String

abbrev pub SessionRegistry : Type 0
SessionRegistry = Map ActiveSession

unfoldable pub register : ActiveSession → SessionRegistry → Option ActiveSession × SessionRegistry
register session registry =
    (lookup session.provider_id registry, put session.provider_id session registry)

drop_if_own : String → String → Option ActiveSession → SessionRegistry → Bool × SessionRegistry
drop_if_own provider_id session_id none registry = (false, registry)
drop_if_own provider_id session_id (some current) registry =
    if not (current.session_id == session_id)
    then (false, registry)
    else (true, remove provider_id registry)

unfoldable pub unregister : String → String → SessionRegistry → Bool × SessionRegistry
unfolding drop_if_own
unregister provider_id session_id registry =
    drop_if_own provider_id session_id (lookup provider_id registry) registry

unfoldable pub is_connected : String → SessionRegistry → Bool
is_connected provider_id registry = is_some (lookup provider_id registry)

-- `push`: the message with the session that it is sent to, or nothing where no agent is connected.
unfoldable pub push :
    String → AgentMessage → SessionRegistry → Option (ActiveSession × AgentMessage)
push provider_id message registry = elim (lookup provider_id registry) [
  | none ↦ none
  | some session ↦ some (session, message)
]

-- The sessions that a `terminate…` method closes; its count is their number.
unfoldable pub terminate_by_token : String → String → SessionRegistry → List ActiveSession
terminate_by_token provider_id token_id registry = elim (lookup provider_id registry) [
  | none ↦ []
  | some session ↦ if not (session.token_id == token_id) then [] else session ∷ []
]

unfoldable pub terminate_by_provider : String → SessionRegistry → List ActiveSession
terminate_by_provider provider_id registry = elim (lookup provider_id registry) [
  | none ↦ []
  | some session ↦ session ∷ []
]

unfoldable pub sessions : SessionRegistry → List ActiveSession
sessions [] = []
sessions ((_, session) ∷ registry) = session ∷ sessions registry

unfoldable pub terminate_by_account : String → SessionRegistry → List ActiveSession
unfolding sessions
terminate_by_account account_id registry =
    filter (λ session. session.account_id == account_id) (sessions registry)

unfoldable pub terminate_all : SessionRegistry → List ActiveSession
unfolding sessions
terminate_all registry = sessions registry

unfoldable pub get : String → SessionRegistry → Option ActiveSession
get provider_id registry = lookup provider_id registry

unfoldable pub size : SessionRegistry → ℕ
size registry = length registry

unfoldable pub connected : SessionRegistry → List (String × String)
unfolding sessions
connected registry = map (λ (s : ActiveSession). (s.account_id, s.provider_id)) (sessions registry)

-- `register` returns the session that the provider had, and the provider now has the new one; other
-- providers keep theirs.
pub register_lem :
    (session : ActiveSession) (registry : SessionRegistry) (provider_id : String)
    → ((register session registry).0 ≡ lookup session.provider_id registry)
      × (lookup provider_id (register session registry).1 ≡ (
          if session.provider_id == provider_id then some session else lookup provider_id registry))
unfolding register
register_lem session registry provider_id =
    (refl, lookup-put session.provider_id provider_id session registry)

-- A session that ends after another one took its provider does not evict it: whatever the registry
-- was, `unregister` by the old session returns false and leaves every provider as it is.
pub unregister_superseded :
    (old new : ActiveSession) (registry : SessionRegistry)
    → old.provider_id ≡ new.provider_id
    → old.session_id ≢ new.session_id
    → let after = (register new (register old registry).1).1 in
      (unregister old.provider_id old.session_id after ≡ (false, after))
      × (lookup old.provider_id after ≡ some new)
unfolding register unregister
unregister_superseded old new registry same other =
    let found : lookup old.provider_id (put new.provider_id new (put old.provider_id old registry))
        ≡ some new =
      simp lookup-put (rw same (rw (eq_refl new.provider_id))) in
    (rw found (ground (arith, eq_iff new.session_id old.session_id)), found)

-- The session that a provider has is evicted by its own end, and no other provider is touched.
pub unregister_own :
    (session : ActiveSession) (registry : SessionRegistry) (provider_id : String)
    → lookup session.provider_id registry ≡ some session
    → ((unregister session.provider_id session.session_id registry).0 ≡ true)
      × (lookup provider_id (unregister session.provider_id session.session_id registry).1
          ≡ (if session.provider_id == provider_id then none else lookup provider_id registry))
unfolding unregister
unregister_own session registry provider_id e = rw e (
    ground
      (arith, eq_refl session.session_id, lookup-remove session.provider_id provider_id registry))

-- Each key once, and each session under the key of its provider: at most one session a provider.
abbrev pub IsOneEach : SessionRegistry → Type 0
IsOneEach [] = Unit
IsOneEach ((k, s) ∷ rest) = (k ≡ s.provider_id) × (lookup k rest ≡ none) × IsOneEach rest

put-IsOneEach :
    (session : ActiveSession) (registry : SessionRegistry)
    → IsOneEach registry
    → IsOneEach (put session.provider_id session registry)
unfolding put lookup
put-IsOneEach session [] h = (refl, refl, tt)
put-IsOneEach session ((k, s) ∷ rest) h = ground (
  arith,
  eq_iff k session.provider_id,
  eq_iff session.provider_id k,
  put-IsOneEach session rest h.2,
  lookup-put session.provider_id k session rest,
)

remove-IsOneEach :
    (provider_id : String) (registry : SessionRegistry)
    → IsOneEach registry
    → IsOneEach (remove provider_id registry)
unfolding remove lookup
remove-IsOneEach provider_id [] h = tt
remove-IsOneEach provider_id ((k, s) ∷ rest) h = ground (
  arith,
  eq_iff k provider_id,
  remove-IsOneEach provider_id rest h.2,
  lookup-remove provider_id k rest,
)

-- `register` and `unregister` keep at most one session for each provider, under its own key.
pub registry-IsOneEach :
    (session : ActiveSession) (provider_id session_id : String) (registry : SessionRegistry)
    → IsOneEach registry
    → IsOneEach (register session registry).1
      × IsOneEach (unregister provider_id session_id registry).1
unfolding register unregister
registry-IsOneEach session provider_id session_id registry h =
    (put-IsOneEach session registry h, dropped (lookup provider_id registry))
  where
    dropped :
        (found : Option ActiveSession)
        → IsOneEach (drop_if_own provider_id session_id found registry).1
    dropped none = h
    dropped (some current) = ground (arith, remove-IsOneEach provider_id registry h)
