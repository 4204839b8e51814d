-- ===== src/Agent/Publisher.antt =====
-- backend/src/adapters/queue-bullmq/snapshot-publisher.ts. The mutex keeps the publications of this
-- process to one provider apart; no other process writes in between.
pub mod Unmoved
pub mod After
pub mod Again
use fluxip.Base.{
  ℕ, ◌+◌, String, Bool, true, false, Option, none, some, List, [], ◌∷◌, ◌==◌, ltb, get_or, length,
  if◌then◌else◌,
}
use fluxip.Event.{StoredEvent, Result, ok, err, CloudEventsConfig, Stamp}
use fluxip.Event.Provider.{
  TraefikProviderEvent, snapshot_published, snapshot_publish_failed, too_large,
}
use fluxip.EventStore.{Table, Loaded}
use fluxip.Aggregates.Provider.{TraefikProviderState, LastPublished}
use fluxip.ProviderStore.{load_active, append_alone}
use fluxip.Agent.Protocol.{SnapshotContent, SnapshotPayload}
use fluxip.Agent.Snapshot.{Platform, build_snapshot_content, entry_count}

pub record PublisherDeps : Type 0 where
  pub config : CloudEventsConfig
  pub agent_snapshot_max_bytes : ℕ
  pub platform : Platform
  pub account_id : String
  pub provider_id : String

pub record PublishResult : Type 0 where
  pub snapshot : SnapshotPayload
  pub changed : Bool

-- What one call is given, with the ULID for a correlation and the stamp of the event.
pub record Publication : Type 0 where
  pub causation_id : Option String
  pub absorbed_causation_ids : List String
  pub correlation_ulid : String
  pub now : String
  pub stamp : Stamp

unfoldable pub payload_of : SnapshotContent → ℕ → String → String → SnapshotPayload
payload_of content version correlation_id generated_at = record {
  content = content;
  version = version;
  correlation_id = correlation_id;
  generated_at = generated_at;
}

unfoldable pub published :
    SnapshotContent
    → String
    → String
    → Result StoredEvent × Table
    → Result (Option PublishResult) × Table
published content correlation_id now (err f, table) = (err f, table)
published content correlation_id now (ok event, table) = (
  ok (
      some (record {
        snapshot = payload_of content event.sequence_number correlation_id now;
        changed = true;
      })),
  table,
)

unfoldable pub refused : Result StoredEvent × Table → Result (Option PublishResult) × Table
refused (err f, table) = (err f, table)
refused (ok _, table) = (ok none, table)

module _ (deps : PublisherDeps) (p : Publication) where
  abbrev correlation : String
  correlation = get_or p.causation_id p.correlation_ulid

  unfoldable pub published_event : SnapshotContent → TraefikProviderEvent
  published_event content = snapshot_published (record {
    content_hash = deps.platform.content_hash content;
    group_count = length content.groups;
    entry_count = entry_count content.groups;
    correlation_id = correlation;
    absorbed_causation_ids = p.absorbed_causation_ids;
    published_at = p.now;
  })

  unfoldable pub publish_new : SnapshotContent → Table → Result (Option PublishResult) × Table
  unfolding published refused published_event
  publish_new content table =
      if ltb deps.agent_snapshot_max_bytes (deps.platform.approx_bytes content)
      then refused (
          append_alone deps.config deps.account_id deps.provider_id
            (snapshot_publish_failed (record {
              reason = too_large;
              correlation_id = correlation;
              absorbed_causation_ids = p.absorbed_causation_ids;
              failed_at = p.now;
            }))
            p.stamp table)
      else published content correlation p.now (
          append_alone deps.config deps.account_id deps.provider_id (published_event content)
            p.stamp table)

  -- The last publication where its content is the current one, else a new one.
  unfoldable pub publish_content :
      SnapshotContent → Option LastPublished → Table → Result (Option PublishResult) × Table
  unfolding payload_of publish_new
  publish_content content none table = publish_new content table
  publish_content content (some last) table =
      let renewed = publish_new content table in
      if last.content_hash == deps.platform.content_hash content
      then (
        ok (
            some (record {
              snapshot = payload_of content last.version last.correlation_id last.published_at;
              changed = false;
            })),
        table,
      )
      else renewed

  unfoldable pub publish_active :
      Option (Loaded TraefikProviderState) → Table → Result (Option PublishResult) × Table
  unfolding publish_content
  publish_active none table = (ok none, table)
  publish_active (some loaded) table =
      publish_content
        (build_snapshot_content deps.platform deps.account_id deps.provider_id loaded.state.name
          table)
        loaded.state.last_published table

  unfoldable pub publish : Table → Result (Option PublishResult) × Table
  unfolding publish_active
  publish table = publish_active (load_active deps.account_id deps.provider_id table) table
