-- ===== src/Aggregates/Provider/Tokens.antt =====
-- The active tokens of a provider: `activeTokens` beside the reducer.
use fluxip.Base.{◌≡◌, refl, not, true, String, List, [], ◌∷◌, ◌==◌, map, filter, nonempty, arith}
use fluxip.Event.{StoredEvent, of_provider}
use fluxip.Event.Provider.{TraefikProviderTokenRevokedData, token_revoked}
use fluxip.Aggregates.Provider.{
  ProviderTokenState, TraefikProviderState, is_active_token, active_tokens, revoke_token,
  fold_provider, fold_provider_payload, traefik_provider_reducer,
}

active-revoke :
    (token_id revoked_at : String) (tokens : List ProviderTokenState)
    → nonempty revoked_at ≡ true
    → filter is_active_token (map (revoke_token token_id revoked_at) tokens)
      ≡ filter
          (λ (token : ProviderTokenState). not (token.token_id == token_id))
          (filter is_active_token tokens)
unfolding is_active_token revoke_token
active-revoke token_id revoked_at [] h = refl
active-revoke token_id revoked_at (token ∷ tokens) h =
    ground (arith, active-revoke token_id revoked_at tokens h)

-- Folding an event that revokes a token, with a time that is not empty, leaves as the active tokens
-- those that were active, in their order, without the ones of that id.
pub active_tokens-revoked :
    (state : TraefikProviderState) (event : StoredEvent) (d : TraefikProviderTokenRevokedData)
    → event.payload ≡ of_provider (token_revoked d)
    → nonempty d.revoked_at ≡ true
    → active_tokens (traefik_provider_reducer state event)
      ≡ filter
          (λ (token : ProviderTokenState). not (token.token_id == d.token_id))
          (active_tokens state)
unfolding active_tokens traefik_provider_reducer fold_provider_payload fold_provider
active_tokens-revoked state event d e h =
    rw e (active-revoke d.token_id d.revoked_at state.tokens h)
