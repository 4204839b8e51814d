-- ===== src/Tests/Session.antt =====
-- A session over the provider store of a table, with the stamps that the process will draw.
use fluxip.Base.{◌≡◌, ◌≤◌, true, Option, none, some, List, [], ◌∷◌, ℕ}
use fluxip.Event.{Stamp, StoredEvent, Result, ok, err, failure}
use fluxip.Event.Provider.{TraefikProviderEvent}
use fluxip.EventStore.{Table, Loaded}
use fluxip.ProviderStore.{load, load_active, append_alone}
use fluxip.Aggregates.Provider.{TraefikProviderState}
use fluxip.Agent.Protocol.{Hello, hello, bye, sync_request}
use fluxip.Agent.Session.{Deps, new_session}
use fluxip.Agent.Session.Calls.{is_close, is_connect, is_disconnect, count}
use fluxip.Agent.Session.Life.{
  Input, message_comes, timer_ticks, transport_ends, step, run, run-calls, run-ended,
}
use fluxip.Tests.Samples.{config, stamp, first}
use fluxip.EventStore.{append}

abbrev World : Type 0
World = Table × List Stamp

append_next : TraefikProviderEvent → World → Result StoredEvent × World
unfolding append_alone
append_next e (table, []) = (err (failure "no stamp"), (table, []))
append_next e (table, s ∷ stamps) =
    let (r, after) = append_alone config "A" "P" e s table in (r, (after, stamps))

abbrev found : Option (Loaded TraefikProviderState) → Option TraefikProviderState
found none = none
found (some loaded) = some loaded.state

abbrev deps : Deps World
deps = record {
  provider_id = "P";
  account_id = "A";
  session_id = "s1";
  token_id = "T";
  store = record {
    load = λ w. ok (load "A" "P" w.0).state;
    load_active = λ w. ok (found (load_active "A" "P" w.0));
    append = append_next;
  };
  publisher = record { publish_now = λ w. (ok none, w) };
  agent_heartbeat_seconds = 30;
  agent_snapshot_max_bytes = 1000;
  server_version = none;
  to_iso_string = λ n. "t";
  to_text = λ n. "n";
}

abbrev greeting : Hello
greeting = record {
  protocol_version = 1;
  agent_version = "0.1";
  max_offline_seconds = 60;
  heartbeat_seconds = 0;
  max_snapshot_bytes = 0;
  provider_name = "";
  accepted_version = 0;
}

-- The table with the provider, and stamps for two events.
abbrev world : World
world = ((append first []).1, stamp "e2" ∷ stamp "e3" ∷ [])

abbrev life : List (ℕ × Input)
life =
    (1, message_comes (hello greeting))
    ∷ (2, message_comes sync_request)
    ∷ (31000, timer_ticks)
    ∷ (31001, message_comes (bye ""))
    ∷ (31002, transport_ends none)
    ∷ (31003, message_comes (hello greeting))
    ∷ []

run-calls_example :
    let calls = (run deps life (new_session 0 [] world)).calls in
    (count is_close calls ≤ 1)
    × (count is_connect calls ≤ 1)
    × (count is_disconnect calls ≤ count is_connect calls)
run-calls_example = run-calls deps 0 [] world life

run-ended_example :
    let ended = step deps 5 (transport_ends none) (run deps life (new_session 0 [] world)) in
    (run deps life ended ≡ ended) × (ended.is_closed ≡ true)
run-ended_example = run-ended deps 5 none life (run deps life (new_session 0 [] world))
