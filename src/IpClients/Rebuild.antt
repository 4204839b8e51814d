-- ===== src/IpClients/Rebuild.antt =====
-- The rebuilt projection beside the states that it is rebuilt from.
use fluxip.Base.{
  ◌≡◌, refl, ap, ◌∙◌, String, false, Option, none, some, List, [], ◌∷◌, ◌==◌, eq_iff, arith, Map,
  lookup, lookup-put, contains, if◌then◌else◌, Bool-cases, Option-cases, or_else, nonempty, inl,
  inr,
}
use fluxip.EventStore.{Table, load_aggregate}
use fluxip.Aggregates.IpClient.{IpClientState}
use fluxip.Devices.Settle.{load_client, ip_client_stream}
use fluxip.EventStore.Commands.{read_stream-unlisted}
use fluxip.IpClients.{
  IpClientSummary, is_retired, to_summary, rebuild_one, rebuild_from, ip_client_ids,
  rebuild_ip_clients_projection,
}

-- What the projection has to show of a state: nothing of a device that is not registered or is
-- decommissioned.
unfoldable pub shown : Option IpClientSummary → Option IpClientSummary
shown none = none
shown (some summary) = if is_retired summary.status then none else some summary

abbrev pub shown_of : String → String → Table → Option IpClientSummary
shown_of account_id id table = shown (to_summary (load_client account_id id table).state)

-- Each device's own id is the id of its stream.
abbrev pub IsNamed : String → Table → Type 0
IsNamed account_id table =
    (id i : String) → (load_client account_id id table).state.ip_client_id ≡ some i → i ≡ id

abbrev summary_id : Option IpClientSummary → Option String
summary_id none = none
summary_id (some s) = some s.ip_client_id

to_summary-id :
    (state : IpClientState) (s : IpClientSummary)
    → to_summary state ≡ some s
    → state.ip_client_id ≡ some s.ip_client_id
unfolding to_summary
to_summary-id state s h = elim (Option-cases state.ip_client_id) [
  | inl e ↦ cc (rw e at h)
  | inr (i, e) ↦ elim (Bool-cases (nonempty i)) [
    | inl y ↦ let g = rw (e, y) at h in e ∙ ap summary_id g
    | inr y ↦ let g = rw (e, y) at h in cc
  ]
]

module _ (account_id : String) (table : Table) (named : IsNamed account_id table) where
  lookup-rebuild_one :
      (id j : String) (hash : Map IpClientSummary)
      → lookup j (rebuild_one (to_summary (load_client account_id id table).state) hash) ≡ (
          if id == j then or_else (shown_of account_id id table) (lookup j hash) else lookup j hash)
  unfolding rebuild_one shown
  lookup-rebuild_one id j hash =
      by_summary (to_summary (load_client account_id id table).state) refl
    where
      by_summary :
          (o : Option IpClientSummary)
          → to_summary (load_client account_id id table).state ≡ o
          → lookup j (rebuild_one o hash)
            ≡ (if id == j then or_else (shown o) (lookup j hash) else lookup j hash)
      by_summary none e = ground arith
      by_summary (some s) e = ground (
        arith,
        named id s.ip_client_id (to_summary-id _ s e),
        eq_iff id j,
        lookup-put s.ip_client_id j s hash,
      )

  lookup-rebuild_same :
      (id j : String) (hash : Map IpClientSummary)
      → lookup j (rebuild_one (to_summary (load_client account_id id table).state) hash)
        ≡ (if id == j then or_else (shown_of account_id j table) (lookup j hash) else lookup j hash)
  lookup-rebuild_same id j hash = elim (Bool-cases (id == j)) [
    | inl e ↦
        let same = ap (λ (k : String). shown_of account_id k table) ((eq_iff id j).0 e) in
        ground (arith, lookup-rebuild_one id j hash, same)
    | inr e ↦ ground (arith, lookup-rebuild_one id j hash)
  ]

  lookup-rebuild_from :
      (ids : List String) (j : String) (hash : Map IpClientSummary)
      → lookup j (rebuild_from account_id table ids hash) ≡ (
          if contains ids j
          then or_else (shown_of account_id j table) (lookup j hash)
          else lookup j hash)
  unfolding rebuild_from
  lookup-rebuild_from [] j hash = refl
  lookup-rebuild_from (id ∷ ids) j hash =
      let hash1 = rebuild_one (to_summary (load_client account_id id table).state) hash in
      elim (Option-cases (shown_of account_id j table)) [
        | inl e ↦ ground (arith, lookup-rebuild_same id j hash, lookup-rebuild_from ids j hash1)
        | inr e ↦ ground (arith, lookup-rebuild_same id j hash, lookup-rebuild_from ids j hash1)
      ]

  -- A device without events shows nothing.
  shown-unlisted :
      (j : String)
      → contains (ip_client_ids account_id table) j ≡ false
      → shown_of account_id j table ≡ none
  unfolding load_client load_aggregate shown to_summary
  shown-unlisted j h = rw (read_stream-unlisted (ip_client_stream account_id j) table h) refl

  -- If each device is named by its stream, the rebuilt projection shows of every device what its
  -- state has to show: nothing of a device that is not registered or is decommissioned.
  pub lookup-rebuild :
      (j : String)
      → lookup j (rebuild_ip_clients_projection account_id table) ≡ shown_of account_id j table
  unfolding rebuild_ip_clients_projection lookup
  lookup-rebuild j = elim (Bool-cases (contains (ip_client_ids account_id table) j)) [
    | inl e ↦ ground (arith, lookup-rebuild_from (ip_client_ids account_id table) j [])
    | inr e ↦
        ground
          (arith, lookup-rebuild_from (ip_client_ids account_id table) j [], shown-unlisted j e)
  ]
