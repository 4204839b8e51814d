-- ===== src/Tests/Aggregates.antt =====
-- A provider with two tokens.
use fluxip.Base.{◌≡◌, refl, ◌==◌, not, String, none, [], ◌∷◌, filter}
use fluxip.Event.{of_provider, StoredEvent}
use fluxip.Event.Provider.{token_revoked, TraefikProviderTokenRevokedData}
use fluxip.Aggregates.Provider.{
  ProviderTokenState, TraefikProviderState, initial_traefik_provider_state, active_tokens,
  traefik_provider_reducer,
}
use fluxip.Aggregates.Provider.Tokens.{active_tokens-revoked}

abbrev token : String → ProviderTokenState
token id = record { token_id = id; hash = "h"; last4 = "1234"; issued_at = "t"; revoked_at = none }

abbrev two_tokens : TraefikProviderState
two_tokens = record initial_traefik_provider_state { tokens = token "T1" ∷ token "T2" ∷ [] }

abbrev revoked : TraefikProviderTokenRevokedData
revoked = record { token_id = "T1"; revoked_at = "t2" }

abbrev revocation : StoredEvent
revocation = record {
  id = "e";
  aggregate_type = "traefik_provider";
  aggregate_id = "P";
  sequence_number = 4;
  account_id = "A";
  type = "t";
  source = "s";
  time = "t2";
  payload = of_provider (token_revoked revoked);
}

active_tokens-revoked_example :
    active_tokens (traefik_provider_reducer two_tokens revocation)
    ≡ filter (λ (t : ProviderTokenState). not (t.token_id == "T1")) (active_tokens two_tokens)
active_tokens-revoked_example = active_tokens-revoked two_tokens revocation revoked refl refl
