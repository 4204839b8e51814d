-- ===== src/Tests/Providers.antt =====
-- A provider that no action delivers to, and a view of it.
use fluxip.Base.{◌≡◌, ◌≢◌, ◌⊎◌, ◌↔◌, ◌≤◌, refl, ℕ, suc, String, false, some, none, [], ◌∷◌, arith}
use fluxip.Event.{ok}
use fluxip.EventStore.{Table, Loaded, append, row_of, load_aggregate, read_stream}
use fluxip.EventStore.Consistency.{IsConsistent}
use fluxip.EventStore.History.{empty, next, write, Reach-IsConsistent}
use fluxip.EventStore.Commands.{CanWrite}
use fluxip.Aggregates.Provider.{
  TraefikProviderState, initial_traefik_provider_state, connected, traefik_provider_reducer,
}
use fluxip.ProviderStore.{provider_stream, load, load_active, is_live}
use fluxip.Providers.{ProviderDeps, NewToken, World, by_provider, refused, in_use}
use fluxip.Providers.View.{
  derive_connection_state, derive_connection_state-stale, stale, is_disconnected, IsOverdue,
}
use fluxip.Providers.Steps.{deliveries}
use fluxip.Providers.Lifecycle.{issue_token, delete_provider}
use fluxip.Providers.Tokens.{issue_token-limit, delete_provider_lem, token_count}
use fluxip.Tests.Samples.{config, stamp, first}
use fluxip.Tests.Tables.{CanWrite-of}

abbrev one : Table
one = (append first []).1

one-IsConsistent : IsConsistent one
one-IsConsistent = Reach-IsConsistent (next empty (write first (omega arith) (omega arith)))

abbrev deps : ProviderDeps
deps = record {
  config = config;
  account_id = "A";
  agent_public_url = some "https://agents.fluxip.test";
  trim = λ s. s;
  lower = λ s. s;
  text_length = λ _. 4;
}

abbrev token : NewToken
token = record { token_id = "T"; plaintext = "p"; hash = "h"; last4 = "0000"; now = "t" }

abbrev start : World
start = record { table = one; terminated = [] }

one-CanWrite : CanWrite (provider_stream "A" "P") "e2" one
unfolding append row_of
one-CanWrite = CanWrite-of (provider_stream "A" "P") "e2" one one-IsConsistent refl refl

abbrev loaded : Loaded TraefikProviderState
loaded = load "A" "P" one

provider_live : load_active "A" "P" one ≡ some loaded
unfolding load_active load is_live append row_of load_aggregate read_stream traefik_provider_reducer
provider_live = refl

issue_token-limit_example :
    ((2 ≤ token_count deps "P" one)
      × (issue_token deps "P" token (stamp "e2") start
          ≡ (ok (refused 409 "token_limit_reached"), start)))
    ⊎ ((token_count deps "P" (issue_token deps "P" token (stamp "e2") start).1.table
          ≡ suc (token_count deps "P" one))
        × (suc (token_count deps "P" one) ≤ 2))
issue_token-limit_example =
    issue_token-limit deps "P" (stamp "e2") start one-CanWrite loaded provider_live token

delete_provider_lem_example :
    ((deliveries deps "P" start ≢ [])
      × (delete_provider deps "P" "t" (stamp "e2") start
          ≡ (ok (in_use (deliveries deps "P" start)), start)))
    ⊎ ((deliveries deps "P" start ≡ [])
        × (load_active "A" "P" (delete_provider deps "P" "t" (stamp "e2") start).1.table ≡ none)
        × ((delete_provider deps "P" "t" (stamp "e2") start).1.terminated ≡ by_provider "P" ∷ []))
delete_provider_lem_example =
    delete_provider_lem deps "P" (stamp "e2") start one-CanWrite loaded provider_live "t"

abbrev parse : String → ℕ
parse _ = 1000

abbrev silent : TraefikProviderState
silent = record initial_traefik_provider_state {
  last_connected_at = some "t";
  last_presence = connected;
  max_offline_seconds = some 60;
}

is_stale : derive_connection_state parse 2000 silent false 70000 ≡ stale
unfolding derive_connection_state
is_stale = refl

-- A minute after the start of the process it is not overdue yet.
not_stale : derive_connection_state parse 2000 silent false 62000 ≡ is_disconnected
unfolding derive_connection_state
not_stale = refl

derive_connection_state-stale_example :
    (derive_connection_state parse 2000 silent false 70000 ≡ stale)
    ↔ ((false ≡ false) × IsOverdue parse 2000 silent 70000)
derive_connection_state-stale_example = derive_connection_state-stale parse 2000 silent false 70000
