-- ===== src/Tests/Samples.antt =====
-- A configuration, stamps and rows that the tests share.
use fluxip.Base.{ℕ, String}
use fluxip.Event.{Payload, of_provider, AppendEventInput, CloudEventsConfig, Stamp}
use fluxip.Event.Provider.{
  TraefikProviderEvent, created, renamed, agent_initiated, traefik_provider_aggregate_type,
}

abbrev pub config : CloudEventsConfig
config = record {
  cloud_events_source = "https://fluxip.test";
  cloud_events_type_prefix = "io.fluxip";
}

abbrev pub stamp : String → Stamp
stamp id = record { ulid = id; now = "2026-01-01T00:00:00.000Z" }

abbrev pub provider_created : TraefikProviderEvent
provider_created = created (record {
  provider_id = "P";
  account_id = "A";
  name = "home";
  connection_mode = agent_initiated;
  created_at = "t1";
})

abbrev pub provider_renamed : TraefikProviderEvent
provider_renamed = renamed (record { name = "office"; renamed_at = "t2" })

abbrev pub input : String → String → ℕ → Payload → AppendEventInput
input id account_id n payload = record {
  id = id;
  aggregate_type = traefik_provider_aggregate_type;
  aggregate_id = "P";
  account_id = account_id;
  expected_sequence_number = n;
  type = "io.fluxip.traefik_provider.created";
  source = "https://fluxip.test";
  time = "t1";
  payload = payload;
}

-- The first event of the provider, the second, and one that comes too late.
abbrev pub first : AppendEventInput
first = input "e1" "A" 1 (of_provider provider_created)

abbrev pub second : AppendEventInput
second = input "e2" "A" 2 (of_provider provider_renamed)

abbrev pub late : AppendEventInput
late = input "e3" "A" 1 (of_provider provider_renamed)
