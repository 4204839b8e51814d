-- ===== src/Devices/Settle/Again.antt =====
-- The settlement of a change, and a further run of the worker after it.
use fluxip.Base.{
  ◌+◌, ◌≡◌, ◌≢◌, refl, ap, ◌∙◌, inl, inr, ◌⊎◌, true, false, not, Option, none, some, List, [], ◌∷◌,
  ◌++◌, or_else, opt_eq, opt_eq_iff, if◌then◌else◌, arith, Bool-cases, In, String,
}
use fluxip.Event.{StoredEvent, ok, Stamp, build_domain_event, append_input}
use fluxip.Event.IpClient.{
  IpClientIpReportReceivedData, IpClientIpChangedData, ip_client_aggregate_type,
}
use fluxip.EventStore.{Table, Loaded, row_of, load_aggregate}
use fluxip.EventStore.Consistency.{IsConsistent}
use fluxip.EventStore.Append.{append_fresh, stream_length}
use fluxip.EventStore.Replay.{load_aggregate-append}
use fluxip.Aggregates.IpClient.{
  IpClientState, initial_ip_client_state, ip_client_reducer, fold_ip_client,
}
use fluxip.Devices.Settle.{
  ip_client_stream, load_client, report_of, last_report, is_on_duty, changed_data, changed_by,
  confirmed, SettleDeps, settled, settle_input, after_insert, settle_confirmed, settle,
}

last_report-append :
    (es : List StoredEvent) (e : StoredEvent)
    → report_of e.payload ≡ none
    → last_report (es ++ e ∷ []) ≡ last_report es
unfolding last_report
last_report-append [] e h = h
last_report-append (x ∷ es) e h =
    ap (λ o. or_else o (report_of x.payload)) (last_report-append es e h)

or_else-twice {ℓ} :
    {A : Type ℓ} (r l : Option A) → or_else r (or_else (or_else r l) l) ≡ or_else (or_else r l) l
or_else-twice none none = refl
or_else-twice none (some l) = refl
or_else-twice (some r) l = refl

opt_eq_refl : (o : Option String) → opt_eq o o ≡ true
opt_eq_refl o = (opt_eq_iff o o).1 refl

-- The state after the event of a change.
abbrev known : IpClientState → IpClientIpChangedData → IpClientState
known state d = record state {
  last_known_ipv4 = or_else d.new_ipv4 state.last_known_ipv4;
  last_known_ipv6 = or_else d.new_ipv6 state.last_known_ipv6;
}

changed_data-new :
    (state : IpClientState) (at : String) (report : IpClientIpReportReceivedData)
    (d : IpClientIpChangedData)
    → changed_data state at report ≡ some d
    → (d.new_ipv4 ≡ or_else report.reported_ipv4 state.last_known_ipv4)
      × (d.new_ipv6 ≡ or_else report.reported_ipv6 state.last_known_ipv6)
unfolding changed_data
changed_data-new state at report d h = ground arith

changed_data-known :
    (state : IpClientState) (at later : String) (report : IpClientIpReportReceivedData)
    (d : IpClientIpChangedData)
    → changed_data state at report ≡ some d
    → changed_data (known state d) later report ≡ none
unfolding changed_data
changed_data-known state at later report d h =
    let (v4, v6) = changed_data-new state at report d h in
    rw
      (
        v4,
        v6,
        or_else-twice report.reported_ipv4 state.last_known_ipv4,
        or_else-twice report.reported_ipv6 state.last_known_ipv6,
        opt_eq_refl
            (or_else (or_else report.reported_ipv4 state.last_known_ipv4) state.last_known_ipv4),
        opt_eq_refl
            (or_else (or_else report.reported_ipv6 state.last_known_ipv6) state.last_known_ipv6),
      )
      refl

-- The loaded state had a change `d`; the next one knows its addresses and has the same last report.
confirmed-known :
    (before after : Loaded IpClientState) (at later : String) (d : IpClientIpChangedData)
    → confirmed before at ≡ some d
    → after.state ≡ known before.state d
    → last_report after.events ≡ last_report before.events
    → confirmed after later ≡ none
unfolding confirmed changed_by
confirmed-known before after at later d h s r =
    rw (s, r) (by_duty (Bool-cases (is_on_duty before.state.status)))
  where
    by_report :
        (report : Option IpClientIpReportReceivedData)
        → changed_by before.state at report ≡ some d
        → changed_by (known before.state d) later report ≡ none
    by_report none q = refl
    by_report (some report) q = changed_data-known before.state at later report d q

    by_duty :
        (is_on_duty before.state.status ≡ true) ⊎ (is_on_duty before.state.status ≡ false)
        → (if not (is_on_duty before.state.status)
            then none
            else changed_by (known before.state d) later (last_report before.events))
          ≡ none
    by_duty (inl e) =
        let q : changed_by before.state at (last_report before.events) ≡ some d = ground arith in
        rw e (by_report (last_report before.events) q)
    by_duty (inr e) = rw e refl

module _ (deps : SettleDeps) (table : Table) (stamp : Stamp) (d : IpClientIpChangedData) where
  reducer-known :
      (state : IpClientState) (loaded : Loaded IpClientState)
      → ip_client_reducer state (row_of (settle_input deps loaded stamp d)) ≡ known state d
  unfolding ip_client_reducer fold_ip_client row_of settle_input append_input build_domain_event
  reducer-known state loaded = refl

  not_a_report :
      (loaded : Loaded IpClientState)
      → report_of (row_of (settle_input deps loaded stamp d)).payload ≡ none
  unfolding row_of settle_input append_input build_domain_event
  not_a_report loaded = refl

  version_lem :
      (settle_input deps
        (load_client deps.account_id deps.ip_client_id table)
        stamp
        d).expected_sequence_number
      ≡ stream_length (ip_client_stream deps.account_id deps.ip_client_id) table + 1
  unfolding settle_input append_input build_domain_event load_client load_aggregate
  version_lem = refl

  -- A confirmed change is appended, and the load after it knows the addresses of the change.
  settle_lem :
      (ulids : String → String)
      → IsConsistent table
      → ((x : StoredEvent) → In x table → x.id ≢ stamp.ulid)
      → ((x : StoredEvent)
          → In x table
          → x.aggregate_type ≡ ip_client_aggregate_type
          → x.aggregate_id ≡ deps.ip_client_id
          → x.account_id ≡ deps.account_id)
      → confirmed (load_client deps.account_id deps.ip_client_id table) stamp.now ≡ some d
      → let before = load_client deps.account_id deps.ip_client_id table in
        let input = settle_input deps before stamp d in
        let after = table ++ row_of input ∷ [] in
        (settle deps stamp ulids (λ t. t) table ≡ (
          ok (
              some (
                settled deps before.state
                  (record { v4 = d.new_ipv4; v6 = d.new_ipv6 })
                  (row_of input)
                  after
                  ulids)),
          after,
        ))
        × ((load_client deps.account_id deps.ip_client_id after).state ≡ known before.state d)
        × (last_report (load_client deps.account_id deps.ip_client_id after).events
            ≡ last_report before.events)
  unfolding settle settle_confirmed after_insert load_client settle_input append_input
      build_domain_event
  settle_lem ulids c fresh own h =
      let before = load_client deps.account_id deps.ip_client_id table in
      let input = settle_input deps before stamp d in
      let (e, r) = append_fresh input table c version_lem fresh own in
      let (e2, s, v) =
        load_aggregate-append input table initial_ip_client_state ip_client_reducer c
          (unfold load_aggregate in version_lem) fresh own in
      let s2 : (load_client deps.account_id deps.ip_client_id (table ++ row_of input ∷ [])).state
          ≡ ip_client_reducer before.state (row_of input) =
        rw e at s in
      let r2 : (load_client deps.account_id deps.ip_client_id (table ++ row_of input ∷ [])).events
          ≡ before.events ++ row_of input ∷ [] =
        unfold load_aggregate in rw e at r in
      (
        rw h (rw e refl),
        s2 ∙ reducer-known before.state before,
        ap last_report r2 ∙ last_report-append before.events (row_of input) (not_a_report before),
      )

  -- On a consistent table whose rows of the device are the account's, with a new event id: if the
  -- worker confirms a change and nobody writes between its load and its insert, it appends the
  -- change and fans it out, the next load knows the addresses of the change, and a further run of
  -- the worker, at any time, appends nothing and fans out nothing.
  pub settle-again :
      (later : Stamp) (ulids more : String → String)
      → IsConsistent table
      → ((x : StoredEvent) → In x table → x.id ≢ stamp.ulid)
      → ((x : StoredEvent)
          → In x table
          → x.aggregate_type ≡ ip_client_aggregate_type
          → x.aggregate_id ≡ deps.ip_client_id
          → x.account_id ≡ deps.account_id)
      → confirmed (load_client deps.account_id deps.ip_client_id table) stamp.now ≡ some d
      → let before = load_client deps.account_id deps.ip_client_id table in
        let row = row_of (settle_input deps before stamp d) in
        let after = table ++ row ∷ [] in
        let known_after = (load_client deps.account_id deps.ip_client_id after).state in
        (settle deps stamp ulids (λ t. t) table ≡ (
          ok (
              some (
                settled deps before.state
                  (record { v4 = d.new_ipv4; v6 = d.new_ipv6 })
                  row
                  after
                  ulids)),
          after,
        ))
        × (known_after.last_known_ipv4 ≡ or_else d.new_ipv4 before.state.last_known_ipv4)
        × (known_after.last_known_ipv6 ≡ or_else d.new_ipv6 before.state.last_known_ipv6)
        × (settle deps later more (λ t. t) after ≡ (ok none, after))
  settle-again later ulids more c fresh own h =
      let (run, s, r) = settle_lem ulids c fresh own h in
      let before = load_client deps.account_id deps.ip_client_id table in
      let after = table ++ row_of (settle_input deps before stamp d) ∷ [] in
      let quiet =
        confirmed-known before (load_client deps.account_id deps.ip_client_id after) stamp.now
          later.now d h s r in
      (
        run,
        ap (λ (state : IpClientState). state.last_known_ipv4) s,
        ap (λ (state : IpClientState). state.last_known_ipv6) s,
        unfold settle settle_confirmed in rw quiet refl,
      )
