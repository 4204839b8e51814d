-- ===== src/Providers/Routes.antt =====
-- Creating, showing and renaming a provider: handlers of backend/src/adapters/http/routes/traefik-providers.ts.
use fluxip.Base.{
  String, Bool, false, not, ◌||◌, Option, none, some, any, filter, ltb, truthy, nonempty, opt_eq,
  ◌==◌, if◌then◌else◌,
}
use fluxip.Event.{StoredEvent, Result, ok, err, Stamp}
use fluxip.Event.Provider.{ConnectionMode, agent_initiated, server_initiated, created, renamed}
use fluxip.EventStore.{Table, Loaded}
use fluxip.Aggregates.Provider.{TraefikProviderState}
use fluxip.ProviderStore.{load, load_active, list_active}
use fluxip.Devices.Delivery.{list_delivery_actions}
use fluxip.Providers.{
  ProviderDeps, NewToken, World, Reply, refused, new_provider, one_provider, all_providers,
  name_max,
}
use fluxip.Providers.Steps.{deliveries, then_reply, store_append, issued_event}

abbrev pub mode_text : ConnectionMode → String
mode_text agent_initiated = "agent_initiated"
mode_text server_initiated = "server_initiated"

unfoldable pub body_name_of : ProviderDeps → Option String → String
body_name_of deps none = ""
body_name_of deps (some name) = deps.trim name

unfoldable pub bad_name : ProviderDeps → String → Bool
bad_name deps name = not (nonempty name) || ltb name_max (deps.text_length name)

unfoldable pub same_name : ProviderDeps → String → Loaded TraefikProviderState → Bool
same_name deps name p = deps.lower (deps.trim p.state.name) == deps.lower name

unfoldable pub after_created :
    ProviderDeps
    → String
    → String
    → NewToken
    → Stamp
    → World
    → Result StoredEvent × Table
    → Result Reply × World
unfolding then_reply store_append issued_event
after_created deps provider_id name token stamp w (err f, table) =
    (err f, record w { table = table })
after_created deps provider_id name token stamp w (ok _, table) =
    then_reply (new_provider provider_id name token) w.terminated
      (store_append deps provider_id (issued_event token) stamp (record w { table = table }))

mode_or_default : Option String → String
mode_or_default none = "agent_initiated"
mode_or_default (some mode) = mode

unfoldable pub create_provider :
    ProviderDeps
    → Option String
    → Option String
    → String
    → NewToken
    → String
    → Stamp
    → Stamp
    → World
    → Result Reply × World
unfolding body_name_of bad_name mode_or_default same_name after_created store_append
create_provider deps body_name body_mode provider_id token now stamp1 stamp2 w =
    let name = body_name_of deps body_name in
    let done = after_created deps provider_id name token stamp2 w (
      store_append deps provider_id
        (created (record {
          provider_id = provider_id;
          account_id = deps.account_id;
          name = name;
          connection_mode = agent_initiated;
          created_at = now;
        }))
        stamp1 w) in
    if bad_name deps name
    then (ok (refused 400 "name is required (max 100 characters)"), w)
    else if not (mode_or_default body_mode == "agent_initiated")
    then (ok (refused 422 "connection_mode_not_available"), w)
    else if not (truthy deps.agent_public_url)
    then (ok (refused 422 "agent_public_url_not_configured"), w)
    else if any (same_name deps name) (list_active deps.account_id w.table)
    then (ok (refused 409 "name_in_use"), w)
    else done

unfoldable pub list_providers : ProviderDeps → World → Result Reply × World
list_providers deps w = (
  ok (
      all_providers (list_active deps.account_id w.table)
        (list_delivery_actions deps.account_id w.table)),
  w,
)

get_found :
    ProviderDeps → String → World → Option (Loaded TraefikProviderState) → Result Reply × World
unfolding deliveries
get_found deps provider_id w none = (ok (refused 404 "not found"), w)
get_found deps provider_id w (some loaded) =
    (ok (one_provider loaded.state (deliveries deps provider_id w)), w)

unfoldable pub get_provider : ProviderDeps → String → World → Result Reply × World
unfolding get_found
get_provider deps provider_id w =
    get_found deps provider_id w (load_active deps.account_id provider_id w.table)

-- The reply of a change of the name: the fresh state and its deliveries.
show_fresh : ProviderDeps → String → Result StoredEvent × Table → World → Result Reply × World
unfolding deliveries
show_fresh deps provider_id (err f, table) w = (err f, record w { table = table })
show_fresh deps provider_id (ok _, table) w =
    let v : World = record w { table = table } in
    (
      ok (
          one_provider (load deps.account_id provider_id table).state
            (deliveries deps provider_id v)),
      v,
    )

mode_changes : Option String → ConnectionMode → Bool
mode_changes none mode = false
mode_changes (some text) mode = not (text == mode_text mode)

unfoldable pub rename_found :
    ProviderDeps
    → String
    → Option String
    → Option String
    → String
    → Stamp
    → World
    → Option (Loaded TraefikProviderState)
    → Result Reply × World
unfolding body_name_of bad_name same_name show_fresh store_append mode_changes deliveries
rename_found deps provider_id body_name body_mode now stamp w none =
    (ok (refused 404 "not found"), w)
rename_found deps provider_id body_name body_mode now stamp w (some loaded) =
    let name = body_name_of deps body_name in
    let others =
      filter
        (λ (p : Loaded TraefikProviderState). not (opt_eq p.state.provider_id (some provider_id)))
        (list_active deps.account_id w.table) in
    let stored =
      store_append deps provider_id (renamed (record { name = name; renamed_at = now })) stamp w in
    let changed = show_fresh deps provider_id stored w in
    let same : Result Reply × World = (
      ok (
          one_provider (load deps.account_id provider_id w.table).state
            (deliveries deps provider_id w)),
      w,
    ) in
    if mode_changes body_mode loaded.state.connection_mode
    then (ok (refused 422 "immutable_field"), w)
    else if bad_name deps name
    then (ok (refused 400 "name is required (max 100 characters)"), w)
    else if any (same_name deps name) others
    then (ok (refused 409 "name_in_use"), w)
    else if not (name == loaded.state.name)
    then changed
    else same

unfoldable pub rename_provider :
    ProviderDeps
    → String
    → Option String
    → Option String
    → String
    → Stamp
    → World
    → Result Reply × World
unfolding rename_found
rename_provider deps provider_id body_name body_mode now stamp w =
    rename_found deps provider_id body_name body_mode now stamp w
      (load_active deps.account_id provider_id w.table)
