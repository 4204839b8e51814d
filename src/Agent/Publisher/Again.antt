-- ===== src/Agent/Publisher/Again.antt =====
-- A publication, and a second one after it.
use fluxip.Base.{
  ◌+◌, ◌≡◌, ◌≢◌, refl, sym, ap, ◌∙◌, ◌⊎◌, inl, inr, String, true, false, Option, none, some, [],
  ◌∷◌, ◌++◌, ◌==◌, eq_refl, In, Bool-cases, Option-cases, ltb,
}
use fluxip.Event.{StoredEvent, Result, ok, err, append_input}
use fluxip.Event.Provider.{traefik_provider_aggregate_type}
use fluxip.EventStore.{Table, Loaded, row_of}
use fluxip.EventStore.Consistency.{IsConsistent}
use fluxip.Aggregates.Provider.{TraefikProviderState, LastPublished}
use fluxip.ProviderStore.{load}
use fluxip.Agent.Protocol.{SnapshotContent, SnapshotPayload}
use fluxip.Agent.Snapshot.{build_snapshot_content}
use fluxip.Agent.Publisher.{
  PublisherDeps, Publication, PublishResult, payload_of, published, refused, correlation,
  publish_new, publish_content, publish_active, publish,
}
use fluxip.Agent.Publisher.Unmoved.{content_unmoved}
use fluxip.Agent.Publisher.After.{
  hidden, load_active_of, load_active_gone, publish_input, publication, append_published,
}

abbrev content_at : PublisherDeps → Table → TraefikProviderState → SnapshotContent
content_at deps t state =
    build_snapshot_content deps.platform deps.account_id deps.provider_id state.name t

abbrev pub unchanged : SnapshotPayload → Table → Result (Option PublishResult) × Table
unchanged payload t = (ok (some (record { snapshot = payload; changed = false })), t)

-- The result of a call that publishes nothing, after one with the result given.
abbrev again_of : Table → Result (Option PublishResult) → Result (Option PublishResult) × Table
again_of t (ok (some x)) = unchanged x.snapshot t
again_of t (ok none) = (ok none, t)
again_of t (err f) = (err f, t)

module _ (deps : PublisherDeps) (q : Publication) where
  -- A provider that is there and last published its current content publishes nothing.
  publish_same :
      (t : Table) (last : LastPublished)
      → let state = (load deps.account_id deps.provider_id t).state in
        hidden deps.account_id state ≡ false
        → state.last_published ≡ some last
        → (last.content_hash == deps.platform.content_hash (content_at deps t state)) ≡ true
        → publish deps q t
          ≡ unchanged
              (payload_of
                (content_at deps t state)
                last.version
                last.correlation_id
                last.published_at)
              t
  unfolding publish publish_active publish_content
  publish_same t last h e same =
      rw (load_active_of deps.account_id deps.provider_id t h) (rw e (rw same refl))

  -- A call finds the provider gone, or its last publication current, or it publishes anew.
  publish_cases :
      (t : Table)
      → let state = (load deps.account_id deps.provider_id t).state in
        (publish deps q t ≡ (ok none, t))
        ⊎ ((hidden deps.account_id state ≡ false)
            × (((last : LastPublished) × (state.last_published ≡ some last)
                  × ((last.content_hash == deps.platform.content_hash (content_at deps t state))
                      ≡ true))
                ⊎ (publish deps q t ≡ publish_new deps q (content_at deps t state) t)))
  unfolding publish publish_active publish_content
  publish_cases t =
      let state = (load deps.account_id deps.provider_id t).state in
      elim (Bool-cases (hidden deps.account_id state)) [
        | inl gone ↦ inl (rw (load_active_gone deps.account_id deps.provider_id t gone) refl)
        | inr shown ↦ inr (
          shown,
          elim (Option-cases state.last_published) [
            | inl never ↦
                inr (rw (load_active_of deps.account_id deps.provider_id t shown) (rw never refl))
            | inr (last, e) ↦
                elim (Bool-cases
                  (last.content_hash == deps.platform.content_hash (content_at deps t state))) [
                    | inl current ↦ inl (last, e, current)
                    | inr other ↦ inr (
                        rw (load_active_of deps.account_id deps.provider_id t shown)
                          (rw e (rw other refl)))
                  ]
          ],
        )
      ]

module _ (deps : PublisherDeps) (p q : Publication) (table : Table) where
  refused-no_result :
      (x : Result StoredEvent × Table) (r : PublishResult) → (refused x).0 ≡ ok (some r) → ⊥
  unfolding refused
  refused-no_result (err f, t) r h = cc
  refused-no_result (ok _, t) r h = cc

  abbrev before : Loaded TraefikProviderState
  before = load deps.account_id deps.provider_id table

  abbrev content : SnapshotContent
  content = content_at deps table before.state

  abbrev after : Table
  after = table ++ row_of (publish_input deps p table content) ∷ []

  abbrev new_payload : SnapshotPayload
  new_payload = payload_of content (before.version + 1) (correlation deps p) p.now

  -- A new publication that has a result appended its event.
  publish_new_cases :
      IsConsistent table
      → ((x : StoredEvent) → In x table → x.id ≢ p.stamp.ulid)
      → ((x : StoredEvent)
          → In x table
          → x.aggregate_type ≡ traefik_provider_aggregate_type
          → x.aggregate_id ≡ deps.provider_id
          → x.account_id ≡ deps.account_id)
      → (publish_new deps p content table
          ≡ (ok (some (record { snapshot = new_payload; changed = true })), after))
        ⊎ ((r : PublishResult) → (publish_new deps p content table).0 ≡ ok (some r) → ⊥)
  unfolding publish_new
  publish_new_cases c fresh own =
      elim (Bool-cases (ltb deps.agent_snapshot_max_bytes (deps.platform.approx_bytes content))) [
        | inl big ↦ inr (λ r h. refused-no_result _ r (rw big at h))
        | inr small ↦ inl (
            rw small (
              ap (published content (correlation deps p) p.now)
                (append_published deps p table content c fresh own).0
              ∙ (unfold row_of append_input in refl)))
      ]

  publish_moved_on :
      IsConsistent table
      → ((x : StoredEvent) → In x table → x.id ≢ p.stamp.ulid)
      → ((x : StoredEvent)
          → In x table
          → x.aggregate_type ≡ traefik_provider_aggregate_type
          → x.aggregate_id ≡ deps.provider_id
          → x.account_id ≡ deps.account_id)
      → hidden deps.account_id before.state ≡ false
      → publish deps q after ≡ unchanged new_payload after
  publish_moved_on c fresh own shown =
      let s = (append_published deps p table content c fresh own).1 in
      let last = publication deps p table content in
      let same_content : content_at deps after (load deps.account_id deps.provider_id after).state
          ≡ content =
        ap
          (λ (name : String).
            build_snapshot_content deps.platform deps.account_id deps.provider_id name after)
          (ap (λ (state : TraefikProviderState). state.name) s)
        ∙ content_unmoved table (row_of (publish_input deps p table content))
            (unfold row_of append_input in refl) deps.platform deps.account_id deps.provider_id
            before.state.name in
      publish_same deps q after last (ap (hidden deps.account_id) s ∙ shown)
        (ap (λ (state : TraefikProviderState). state.last_published) s)
        (rw same_content (eq_refl (deps.platform.content_hash content)))
      ∙ ap
          (λ (c : SnapshotContent).
            unchanged (payload_of c last.version last.correlation_id last.published_at) after)
          same_content

  -- What the first call returns, and the second call after it.
  same_snapshot :
      (x r : PublishResult) (t : Table)
      → publish deps p table ≡ (ok (some x), t)
      → publish deps q t ≡ unchanged x.snapshot t
      → (publish deps p table).0 ≡ ok (some r)
      → publish deps q (publish deps p table).1 ≡ unchanged r.snapshot (publish deps p table).1
  same_snapshot x r t e again h =
      let same : ok (some x) ≡ ok (some r) =
        sym (ap (λ (o : Result (Option PublishResult) × Table). o.0) e) ∙ h in
      let here : publish deps q t ≡ unchanged r.snapshot t = again ∙ ap (again_of t) same in
      rw e here

  -- On a consistent table whose rows of the provider are the account's, with a new event id: when a
  -- publication has a result, a second one, for any cause, publishes nothing and gives the same
  -- snapshot: content, version, correlation and time.
  pub publish-again :
      (r : PublishResult)
      → IsConsistent table
      → ((x : StoredEvent) → In x table → x.id ≢ p.stamp.ulid)
      → ((x : StoredEvent)
          → In x table
          → x.aggregate_type ≡ traefik_provider_aggregate_type
          → x.aggregate_id ≡ deps.provider_id
          → x.account_id ≡ deps.account_id)
      → (publish deps p table).0 ≡ ok (some r)
      → publish deps q (publish deps p table).1 ≡ unchanged r.snapshot (publish deps p table).1
  publish-again r c fresh own h = elim (publish_cases deps p table) [
    | inl gone ↦ cc (gone, h)
    | inr (shown, inl (last, e, current)) ↦
        same_snapshot _ r table (publish_same deps p table last shown e current)
          (publish_same deps q table last shown e current) h
    | inr (shown, inr new) ↦ elim (publish_new_cases c fresh own) [
      | inl done ↦ same_snapshot _ r after (new ∙ done) (publish_moved_on c fresh own shown) h
      | inr fails ↦
          elim (fails r (ap (λ (o : Result (Option PublishResult) × Table). o.0) (sym new) ∙ h)) [ ]
    ]
  ]
