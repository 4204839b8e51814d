-- ===== src/Accounts/Provision.antt =====
-- Provisioning an account, and the override of its device limit.
use fluxip.Base.{◌≡◌, refl, ap, ◌∙◌, ℕ, String, List, [], ◌∷◌, ◌++◌}
use fluxip.Event.{Payload, Stamp, StoredEvent, ok, of_account}
use fluxip.Event.Account.{registered}
use fluxip.EventStore.{Table, load_aggregate, read_stream}
use fluxip.EventStore.Append.{stream_length}
use fluxip.EventStore.Commands.{
  CanWrite, append_next, next_row, append_next_ok, read_next, load_next, next_row-payload,
}
use fluxip.Aggregates.Account.{initial_account_state, account_reducer, fold_account}
use fluxip.Accounts.{
  AccountConfig, account_stream, load_account, get_state, ensure_provisioned, provision_with,
  after_provision, provisioned_state,
}

-- An account that has events is left as it is, and its state is the reply.
pub ensure_provisioned-again :
    (config : AccountConfig) (account_id now : String) (stamp : Stamp) (table : Table)
    (e : StoredEvent) (es : List StoredEvent)
    → read_stream (account_stream account_id) table ≡ e ∷ es
    → ensure_provisioned config account_id now stamp table
      ≡ (ok (get_state account_id table), table)
unfolding ensure_provisioned provision_with get_state load_account load_aggregate
ensure_provisioned-again config account_id now stamp table e es h = rw h refl

module _ (config : AccountConfig) (account_id now : String) (stamp : Stamp) (table : Table)
    (can : CanWrite (account_stream account_id) stamp.ulid table)
    (fresh : read_stream (account_stream account_id) table ≡ []) where
  abbrev event : Payload
  event = of_account (
      registered (record {
        account_id = account_id;
        device_limit = config.default_ip_client_limit;
        registered_at = now;
      }))

  abbrev provisioned : Table
  provisioned = table ++ next_row config.events (account_stream account_id) event stamp table ∷ []

  append-at :
      (n : ℕ)
      → n ≡ stream_length (account_stream account_id) table
      → append_next config.events (account_stream account_id) n event stamp table
        ≡ (ok (next_row config.events (account_stream account_id) event stamp table), provisioned)
  append-at n e =
      rw e (append_next_ok config.events (account_stream account_id) event stamp table can)

  provision_empty :
      (es : List StoredEvent)
      → es ≡ []
      → provision_with config account_id now stamp (load_account account_id table) es table
        ≡ (ok (provisioned_state config account_id), provisioned)
  unfolding provision_with after_provision
  provision_empty es e = rw (e, append-at 0 (rw fresh refl)) refl

  provision_ok :
      ensure_provisioned config account_id now stamp table
      ≡ (ok (provisioned_state config account_id), provisioned)
  unfolding ensure_provisioned load_account load_aggregate
  provision_ok = provision_empty (read_stream (account_stream account_id) table) fresh

  state-provisioned : get_state account_id provisioned ≡ provisioned_state config account_id
  unfolding get_state load_account account_reducer fold_account provisioned_state
  state-provisioned =
      load_next config.events (account_stream account_id) event stamp table can
        initial_account_state account_reducer
      ∙ ap (fold_account (load_account account_id table).state)
          (next_row-payload config.events (account_stream account_id) event stamp table)

  read-provisioned :
      read_stream (account_stream account_id) provisioned
      ≡ next_row config.events (account_stream account_id) event stamp table ∷ []
  read-provisioned =
      read_next config.events (account_stream account_id) event stamp table can ∙ rw fresh refl

  -- If the account has no event and its event can be written, it is provisioned: the reply is the
  -- state that the next load gives, with the configured limit, and provisioning again changes nothing
  -- and replies the same.
  pub ensure_provisioned_lem :
      (later : String) (stamp2 : Stamp)
      → let (reply, after) = ensure_provisioned config account_id now stamp table in
        (reply ≡ ok (get_state account_id after))
        × ((get_state account_id after).device_limit ≡ config.default_ip_client_limit)
        × (ensure_provisioned config account_id later stamp2 after ≡ (reply, after))
  unfolding provisioned_state
  ensure_provisioned_lem later stamp2 =
      rw (provision_ok, state-provisioned)
        (
          refl,
          refl,
          ensure_provisioned-again config account_id later stamp2 provisioned _ [] read-provisioned
              ∙ rw state-provisioned refl,
        )
