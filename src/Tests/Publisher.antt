-- ===== src/Tests/Publisher.antt =====
-- A provider whose snapshot is published.
use Prim.Native.String.{compare}
use fluxip.Base.{◌≡◌, ◌≢◌, String, refl, ap, inl, inr, true, some, [], arith, eq_iff, In}
use fluxip.Event.{StoredEvent, ok, append_input, build_domain_event}
use fluxip.ProviderStore.{load_active, append_alone, attempt_append}
use fluxip.Aggregates.Provider.{traefik_provider_reducer}
use fluxip.Agent.Snapshot.{build_snapshot_content, members}
use fluxip.Event.Provider.{traefik_provider_aggregate_type}
use fluxip.EventStore.{Table, append, row_of, load_aggregate, read_stream, list_aggregate_ids}
use fluxip.EventStore.Consistency.{IsConsistent}
use fluxip.EventStore.History.{empty, next, write, Reach-IsConsistent}
use fluxip.Agent.Publisher.{PublisherDeps, Publication, PublishResult, payload_of, publish}
use fluxip.Agent.Publisher.Again.{unchanged, publish-again}
use fluxip.Tests.Samples.{config, stamp, first}

abbrev provider_table : Table
provider_table = (append first []).1

abbrev deps : PublisherDeps
deps = record {
  config = config;
  agent_snapshot_max_bytes = 1000;
  platform = record {
    locale_compare = compare;
    trim = λ s. s;
    content_hash = λ c. c.provider_name;
    approx_bytes = λ c. 100;
  };
  account_id = "A";
  provider_id = "P";
}

abbrev publication : String → Publication
publication id = record {
  causation_id = some "cause";
  absorbed_causation_ids = [];
  correlation_ulid = id;
  now = "2026-01-01T00:00:00.000Z";
  stamp = stamp id;
}

abbrev outcome : PublishResult
outcome = record {
  snapshot =
      payload_of (record { provider_name = "home"; groups = [] }) 2 "cause"
        "2026-01-01T00:00:00.000Z";
  changed = true;
}

provider_table-IsConsistent : IsConsistent provider_table
provider_table-IsConsistent =
    Reach-IsConsistent (next empty (write first (omega arith) (omega arith)))

publish-first : (publish deps (publication "e2") provider_table).0 ≡ ok (some outcome)
unfolding publish load_active load_aggregate read_stream append traefik_provider_reducer
    append_alone attempt_append append_input build_domain_event build_snapshot_content members
    list_aggregate_ids
publish-first = refl

provider_table-new_id :
    (x : StoredEvent) → In x provider_table → x.id ≢ (publication "e2").stamp.ulid
unfolding append row_of
provider_table-new_id x (inl e) q =
    ground (arith, eq_iff "e1" "e2", ap (λ (r : StoredEvent). r.id) e)
provider_table-new_id x (inr i) q = elim i [ ]

provider_table-own :
    (x : StoredEvent)
    → In x provider_table
    → x.aggregate_type ≡ traefik_provider_aggregate_type
    → x.aggregate_id ≡ deps.provider_id
    → x.account_id ≡ deps.account_id
unfolding append row_of
provider_table-own x (inl e) t a = ap (λ (r : StoredEvent). r.account_id) e
provider_table-own x (inr i) t a = elim i [ ]

publish-again_example :
    let after = (publish deps (publication "e2") provider_table).1 in
    publish deps (publication "e3") after ≡ unchanged outcome.snapshot after
publish-again_example =
    publish-again deps (publication "e2") (publication "e3") provider_table outcome
      provider_table-IsConsistent provider_table-new_id provider_table-own publish-first
