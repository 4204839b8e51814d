-- ===== src/Agent/Publisher/After.antt =====
-- The append of a publication, and the load after it.
use fluxip.Base.{
  ◌+◌, ◌≡◌, ◌≢◌, refl, ◌∙◌, String, Bool, true, false, none, some, [], ◌∷◌, ◌++◌, In, not, ◌||◌,
  opt_eq, truthy,
}
use fluxip.Event.{of_provider, StoredEvent, AppendEventInput, ok, build_domain_event, append_input}
use fluxip.Event.Provider.{traefik_provider_aggregate_type}
use fluxip.EventStore.{Table, row_of, load_aggregate}
use fluxip.EventStore.Consistency.{IsConsistent}
use fluxip.EventStore.Append.{append_fresh, stream_length}
use fluxip.EventStore.Replay.{load_aggregate-append}
use fluxip.Aggregates.Provider.{
  TraefikProviderState, LastPublished, initial_traefik_provider_state, traefik_provider_reducer,
  fold_provider_payload, fold_provider,
}
use fluxip.ProviderStore.{provider_stream, load, load_active, is_live, append_alone, attempt_append}
use fluxip.Agent.Protocol.{SnapshotContent}
use fluxip.Agent.Publisher.{PublisherDeps, Publication, published_event, correlation}

-- The test of `loadActive`.
abbrev pub hidden : String → TraefikProviderState → Bool
hidden account_id state =
    not (truthy state.provider_id)
    || not (opt_eq state.account_id (some account_id))
    || not (is_live state.status)

pub load_active_of :
    (account_id provider_id : String) (table : Table)
    → hidden account_id (load account_id provider_id table).state ≡ false
    → load_active account_id provider_id table ≡ some (load account_id provider_id table)
unfolding load_active
load_active_of account_id provider_id table h = rw h refl

pub load_active_gone :
    (account_id provider_id : String) (table : Table)
    → hidden account_id (load account_id provider_id table).state ≡ true
    → load_active account_id provider_id table ≡ none
unfolding load_active
load_active_gone account_id provider_id table h = rw h refl

module _ (deps : PublisherDeps) (p : Publication) (table : Table) (content : SnapshotContent) where
  -- The input of the append of a publication.
  abbrev pub publish_input : AppendEventInput
  publish_input =
      append_input (provider_stream deps.account_id deps.provider_id)
        ((load deps.account_id deps.provider_id table).version + 1)
        (build_domain_event deps.config traefik_provider_aggregate_type
          (of_provider (published_event deps p content)) p.stamp)

  -- The state of the provider after a publication.
  abbrev after_publication : TraefikProviderState → LastPublished → TraefikProviderState
  after_publication state last = record state {
    last_published = some last;
    last_publish_error = none;
  }

  abbrev pub publication : LastPublished
  publication = record {
    version = (load deps.account_id deps.provider_id table).version + 1;
    content_hash = deps.platform.content_hash content;
    correlation_id = correlation deps p;
    published_at = p.now;
  }

  reducer_after :
      (state : TraefikProviderState)
      → traefik_provider_reducer state (row_of publish_input) ≡ after_publication state publication
  unfolding traefik_provider_reducer fold_provider_payload fold_provider row_of append_input
      build_domain_event published_event
  reducer_after state = refl

  next_version :
      publish_input.expected_sequence_number
      ≡ stream_length (provider_stream deps.account_id deps.provider_id) table + 1
  unfolding append_input build_domain_event load load_aggregate
  next_version = refl

  pub append_published :
      IsConsistent table
      → ((x : StoredEvent) → In x table → x.id ≢ p.stamp.ulid)
      → ((x : StoredEvent)
          → In x table
          → x.aggregate_type ≡ traefik_provider_aggregate_type
          → x.aggregate_id ≡ deps.provider_id
          → x.account_id ≡ deps.account_id)
      → let before = load deps.account_id deps.provider_id table in
        let after = table ++ row_of publish_input ∷ [] in
        (append_alone deps.config deps.account_id deps.provider_id
            (published_event deps p content)
            p.stamp
            table
          ≡ (ok (row_of publish_input), after))
        × ((load deps.account_id deps.provider_id after).state
            ≡ after_publication before.state publication)
  unfolding append_alone attempt_append append_input build_domain_event load
  append_published c fresh own =
      let before = load deps.account_id deps.provider_id table in
      let (e, r) = append_fresh publish_input table c next_version fresh own in
      let (e2, s, v) =
        load_aggregate-append publish_input table initial_traefik_provider_state
          traefik_provider_reducer c (unfold load_aggregate in next_version) fresh own in
      let s2 : (load deps.account_id deps.provider_id (table ++ row_of publish_input ∷ [])).state
          ≡ traefik_provider_reducer before.state (row_of publish_input) =
        rw e at s in
      (e, s2 ∙ reducer_after before.state)
