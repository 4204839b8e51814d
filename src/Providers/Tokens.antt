-- ===== src/Providers/Tokens.antt =====
-- The limit of the tokens, and the end of a provider.
use fluxip.Base.{
  ◌≡◌, ◌≢◌, ◌⊎◌, refl, ap, ◌∙◌, ℕ, suc, ◌≤◌, String, true, false, none, some, List, [], ◌∷◌, ◌++◌,
  filter, filter-append, length, length-append, leb, arith, Bool-cases, inl, inr,
}
use fluxip.Event.{of_provider, StoredEvent, ok, Stamp}
use fluxip.Event.Provider.{TraefikProviderEvent, deleted}
use fluxip.EventStore.{Table, Loaded, load_aggregate}
use fluxip.EventStore.Commands.{
  CanWrite, append_next, next_input, next_row, append_next_ok, load_next, next_row-payload,
}
use fluxip.Aggregates.Provider.{
  TraefikProviderState, active_tokens, is_active_token, fold_provider, fold_provider_payload,
  initial_traefik_provider_state, traefik_provider_reducer,
}
use fluxip.ProviderStore.{provider_stream, load, load_active, is_live, append_alone, attempt_append}
use fluxip.Devices.Delivery.{DeliveryAction}
use fluxip.Providers.{ProviderDeps, NewToken, by_provider, World, refused, in_use, new_token}
use fluxip.Providers.Steps.{deliveries, then_reply, then_terminate, store_append, issued_event}
use fluxip.Providers.Lifecycle.{
  issue_token, issue_found, delete_provider, delete_found, delete_unused,
}

load_active-load :
    (account_id provider_id : String) (table : Table) (loaded : Loaded TraefikProviderState)
    → load_active account_id provider_id table ≡ some loaded
    → load account_id provider_id table ≡ loaded
unfolding load_active
load_active-load account_id provider_id table loaded h = ground arith

module _ (deps : ProviderDeps) (provider_id : String) (event : TraefikProviderEvent) (stamp : Stamp)
    (w : World)
    (can : CanWrite (provider_stream deps.account_id provider_id) stamp.ulid w.table) where
  abbrev row : StoredEvent
  row =
      next_row deps.config (provider_stream deps.account_id provider_id) (of_provider event) stamp
        w.table

  abbrev stored : Table
  stored = w.table ++ row ∷ []

  store_append_ok : store_append deps provider_id event stamp w ≡ (ok row, stored)
  unfolding store_append append_alone attempt_append load load_aggregate append_next next_input
  store_append_ok =
      append_next_ok deps.config (provider_stream deps.account_id provider_id) (of_provider event)
        stamp w.table can

  load-stored :
      (load deps.account_id provider_id stored).state
      ≡ fold_provider (load deps.account_id provider_id w.table).state row.sequence_number event
  unfolding load traefik_provider_reducer fold_provider_payload
  load-stored =
      load_next deps.config (provider_stream deps.account_id provider_id) (of_provider event) stamp
        w.table can initial_traefik_provider_state traefik_provider_reducer
      ∙ ap
          (fold_provider_payload (load deps.account_id provider_id w.table).state
            row.sequence_number)
          (next_row-payload deps.config (provider_stream deps.account_id provider_id)
            (of_provider event) stamp w.table)

abbrev pub token_count : ProviderDeps → String → Table → ℕ
token_count deps provider_id table =
    length (active_tokens (load deps.account_id provider_id table).state)

module _ (deps : ProviderDeps) (provider_id : String) (stamp : Stamp) (w : World)
    (can : CanWrite (provider_stream deps.account_id provider_id) stamp.ulid w.table)
    (loaded : Loaded TraefikProviderState)
    (alive : load_active deps.account_id provider_id w.table ≡ some loaded) where
  count-issued :
      (token : NewToken)
      → token_count deps provider_id (stored deps provider_id (issued_event token) stamp w can)
        ≡ suc (token_count deps provider_id w.table)
  unfolding active_tokens fold_provider issued_event is_active_token
  count-issued token =
      let tokens = (load deps.account_id provider_id w.table).state.tokens in
      rw
        (
          load-stored deps provider_id (issued_event token) stamp w can,
          filter-append is_active_token tokens,
          length-append (filter is_active_token tokens),
        )
        (omega arith)

  issue_token-cases :
      (token : NewToken)
      → ((leb 2 (token_count deps provider_id w.table) ≡ true)
          × (issue_token deps provider_id token stamp w
              ≡ (ok (refused 409 "token_limit_reached"), w)))
        ⊎ ((leb 2 (token_count deps provider_id w.table) ≡ false)
            × (issue_token deps provider_id token stamp w ≡ (
              ok (new_token token),
              record w { table = stored deps provider_id (issued_event token) stamp w can },
            )))
  unfolding issue_token issue_found then_reply
  issue_token-cases token = elim (Bool-cases (leb 2 (token_count deps provider_id w.table))) [
    | inl e ↦
        let h = rw (load_active-load deps.account_id provider_id w.table loaded alive) at e in
        inl (e, rw (alive, h) refl)
    | inr e ↦
        let h = rw (load_active-load deps.account_id provider_id w.table loaded alive) at e in
        inr
          (e, rw (alive, h, store_append_ok deps provider_id (issued_event token) stamp w can) refl)
  ]

  -- If the provider is live and the event can be written: a new token is refused, with nothing
  -- changed, when two or more are active; otherwise one more is active, and at most two.
  pub issue_token-limit :
      (token : NewToken)
      → ((2 ≤ token_count deps provider_id w.table)
          × (issue_token deps provider_id token stamp w
              ≡ (ok (refused 409 "token_limit_reached"), w)))
        ⊎ ((token_count deps provider_id (issue_token deps provider_id token stamp w).1.table
              ≡ suc (token_count deps provider_id w.table))
            × (suc (token_count deps provider_id w.table) ≤ 2))
  issue_token-limit token = elim (issue_token-cases token) [
    | inl (h, e) ↦ inl (ground arith, e)
    | inr (h, e) ↦ inr (rw e (count-issued token), ground arith)
  ]

  gone :
      (now : String)
      → load_active deps.account_id provider_id (stored deps provider_id (deleted now) stamp w can)
        ≡ none
  unfolding load_active is_live fold_provider
  gone now =
      let ended =
        ap (λ (s : TraefikProviderState). is_live s.status)
          (load-stored deps provider_id (deleted now) stamp w can) in
      ground (arith, ended)

  -- If the provider is live and the event can be written: a provider that delivery actions deliver to
  -- is kept, with nothing changed, and the reply tells them; another one is live no more, and its
  -- sessions are ended.
  pub delete_provider_lem :
      (now : String)
      → ((deliveries deps provider_id w ≢ [])
          × (delete_provider deps provider_id now stamp w
              ≡ (ok (in_use (deliveries deps provider_id w)), w)))
        ⊎ ((deliveries deps provider_id w ≡ [])
            × (load_active deps.account_id provider_id
                  (delete_provider deps provider_id now stamp w).1.table
                ≡ none)
            × ((delete_provider deps provider_id now stamp w).1.terminated
                ≡ by_provider provider_id ∷ w.terminated))
  unfolding delete_provider delete_found delete_unused then_terminate
  delete_provider_lem now = rw alive (by_actions (deliveries deps provider_id w) refl)
    where
      by_actions :
          (actions : List DeliveryAction)
          → deliveries deps provider_id w ≡ actions
          → ((actions ≢ [])
              × (delete_unused deps provider_id now stamp w actions ≡ (ok (in_use actions), w)))
            ⊎ ((actions ≡ [])
                × (load_active deps.account_id provider_id
                      (delete_unused deps provider_id now stamp w actions).1.table
                    ≡ none)
                × ((delete_unused deps provider_id now stamp w actions).1.terminated
                    ≡ by_provider provider_id ∷ w.terminated))
      by_actions (a ∷ actions) e = inl (λ h. cc, refl)
      by_actions [] e = inr (
        refl,
        rw (store_append_ok deps provider_id (deleted now) stamp w can) (gone now),
        rw (store_append_ok deps provider_id (deleted now) stamp w can) refl,
      )
