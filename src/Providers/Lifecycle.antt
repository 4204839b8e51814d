-- ===== src/Providers/Lifecycle.antt =====
-- Deleting a provider, and its tokens: handlers of
-- backend/src/adapters/http/routes/traefik-providers.ts.
use fluxip.Base.{
  String, not, Option, none, some, List, [], ◌∷◌, find, length, leb, truthy, ◌==◌, if◌then◌else◌,
}
use fluxip.Event.{Result, ok, Stamp}
use fluxip.Event.Provider.{deleted, token_revoked}
use fluxip.EventStore.{Loaded}
use fluxip.Aggregates.Provider.{
  TraefikProviderState, ProviderTokenState, active_tokens, max_active_tokens,
}
use fluxip.ProviderStore.{load_active}
use fluxip.Devices.Delivery.{DeliveryAction}
use fluxip.Providers.{
  ProviderDeps, NewToken, by_provider, by_token, World, Reply, refused, in_use, new_token,
  no_content,
}
use fluxip.Providers.Steps.{deliveries, then_reply, then_terminate, store_append, issued_event}

unfoldable pub delete_unused :
    ProviderDeps → String → String → Stamp → World → List DeliveryAction → Result Reply × World
unfolding then_terminate store_append
delete_unused deps provider_id now stamp w (action ∷ actions) = (ok (in_use (action ∷ actions)), w)
delete_unused deps provider_id now stamp w [] =
    then_terminate (by_provider provider_id) w (store_append deps provider_id (deleted now) stamp w)

unfoldable pub delete_found :
    ProviderDeps
    → String
    → String
    → Stamp
    → World
    → Option (Loaded TraefikProviderState)
    → Result Reply × World
unfolding delete_unused deliveries
delete_found deps provider_id now stamp w none = (ok (refused 404 "not found"), w)
delete_found deps provider_id now stamp w (some loaded) =
    delete_unused deps provider_id now stamp w (deliveries deps provider_id w)

unfoldable pub delete_provider :
    ProviderDeps → String → String → Stamp → World → Result Reply × World
unfolding delete_found
delete_provider deps provider_id now stamp w =
    delete_found deps provider_id now stamp w (load_active deps.account_id provider_id w.table)

unfoldable pub issue_found :
    ProviderDeps
    → String
    → NewToken
    → Stamp
    → World
    → Option (Loaded TraefikProviderState)
    → Result Reply × World
unfolding then_reply store_append issued_event
issue_found deps provider_id token stamp w none = (ok (refused 404 "not found"), w)
issue_found deps provider_id token stamp w (some loaded) =
    let done =
      then_reply (new_token token) w.terminated
        (store_append deps provider_id (issued_event token) stamp w) in
    if leb max_active_tokens (length (active_tokens loaded.state))
    then (ok (refused 409 "token_limit_reached"), w)
    else done

unfoldable pub issue_token : ProviderDeps → String → NewToken → Stamp → World → Result Reply × World
unfolding issue_found
issue_token deps provider_id token stamp w =
    issue_found deps provider_id token stamp w (load_active deps.account_id provider_id w.table)

unfoldable pub revoke_known :
    ProviderDeps
    → String
    → String
    → String
    → Stamp
    → World
    → Option ProviderTokenState
    → Result Reply × World
unfolding then_terminate store_append
revoke_known deps provider_id token_id now stamp w none = (ok (refused 404 "not found"), w)
revoke_known deps provider_id token_id now stamp w (some token) =
    let stored = then_terminate (by_token provider_id token_id) w (
      store_append deps provider_id
        (token_revoked (record { token_id = token_id; revoked_at = now })) stamp w) in
    let again : Result Reply × World =
      (ok no_content, record w { terminated = by_token provider_id token_id ∷ w.terminated }) in
    if not (truthy token.revoked_at) then stored else again

revoke_found :
    ProviderDeps
    → String
    → String
    → String
    → Stamp
    → World
    → Option (Loaded TraefikProviderState)
    → Result Reply × World
unfolding revoke_known
revoke_found deps provider_id token_id now stamp w none = (ok (refused 404 "not found"), w)
revoke_found deps provider_id token_id now stamp w (some loaded) =
    revoke_known deps provider_id token_id now stamp w
      (find (λ (t : ProviderTokenState). t.token_id == token_id) loaded.state.tokens)

unfoldable pub revoke_provider_token :
    ProviderDeps → String → String → String → Stamp → World → Result Reply × World
unfolding revoke_found
revoke_provider_token deps provider_id token_id now stamp w =
    revoke_found deps provider_id token_id now stamp w
      (load_active deps.account_id provider_id w.table)
