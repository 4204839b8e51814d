-- ===== src/Accounts.antt =====
-- backend/src/domain/account/account-service.ts: FluxIP's own record of an account. The id of the
-- aggregate is the id of the account.
pub mod Provision
use fluxip.Base.{ℕ, String, Bool, Option, none, some, List, [], ◌∷◌, truthy}
use fluxip.Event.{
  of_account, StoredEvent, ReadStreamParams, Result, ok, err, CloudEventsConfig, Stamp,
}
use fluxip.Event.Account.{account_aggregate_type, registered, device_limit_overridden}
use fluxip.EventStore.{Table, Loaded, load_aggregate}
use fluxip.EventStore.Commands.{append_next}
use fluxip.Aggregates.Account.{AccountState, active, initial_account_state, account_reducer}

pub record AccountConfig : Type 0 where
  pub events : CloudEventsConfig
  pub default_ip_client_limit : ℕ

abbrev pub account_stream : String → ReadStreamParams
account_stream account_id = record {
  account_id = account_id;
  aggregate_type = account_aggregate_type;
  aggregate_id = account_id;
}

unfoldable pub load_account : String → Table → Loaded AccountState
load_account account_id table =
    load_aggregate table (account_stream account_id) initial_account_state account_reducer

unfoldable pub get_state : String → Table → AccountState
unfolding load_account
get_state account_id table = (load_account account_id table).state

unfoldable pub provisioned_state : AccountConfig → String → AccountState
provisioned_state config account_id = record {
  account_id = some account_id;
  device_limit = config.default_ip_client_limit;
  status = active;
}

unfoldable pub after_provision :
    AccountState → Result StoredEvent × Table → Result AccountState × Table
after_provision state (err f, table) = (err f, table)
after_provision state (ok _, table) = (ok state, table)

unfoldable pub provision_with :
    AccountConfig
    → String
    → String
    → Stamp
    → Loaded AccountState
    → List StoredEvent
    → Table
    → Result AccountState × Table
unfolding provisioned_state after_provision
provision_with config account_id now stamp loaded (_ ∷ _) table = (ok loaded.state, table)
provision_with config account_id now stamp loaded [] table =
    after_provision (provisioned_state config account_id) (
      append_next config.events (account_stream account_id) 0
        (of_account (
          registered (record {
            account_id = account_id;
            device_limit = config.default_ip_client_limit;
            registered_at = now;
          })))
        stamp table)

unfoldable pub ensure_provisioned :
    AccountConfig → String → String → Stamp → Table → Result AccountState × Table
unfolding load_account provision_with
ensure_provisioned config account_id now stamp table =
    let loaded = load_account account_id table in
    provision_with config account_id now stamp loaded loaded.events table

unfoldable pub after_override :
    AccountState → Result StoredEvent × Table → Result (Option AccountState) × Table
after_override state (err f, table) = (err f, table)
after_override state (ok _, table) = (ok (some state), table)

unfoldable pub override_with :
    AccountConfig
    → String
    → ℕ
    → String
    → String
    → Stamp
    → Loaded AccountState
    → Bool
    → Table
    → Result (Option AccountState) × Table
unfolding after_override
override_with config account_id limit by now stamp loaded Bool.false table = (ok none, table)
override_with config account_id limit by now stamp loaded Bool.true table =
    after_override (record loaded.state { device_limit = limit })
      (append_next config.events (account_stream account_id) loaded.version
        (of_account (
          device_limit_overridden (record {
            account_id = account_id;
            previous_limit = loaded.state.device_limit;
            new_limit = limit;
            overridden_by = by;
            overridden_at = now;
          })))
        stamp table)

unfoldable pub override_device_limit :
    AccountConfig
    → String
    → ℕ
    → String
    → String
    → Stamp
    → Table
    → Result (Option AccountState) × Table
unfolding load_account override_with
override_device_limit config account_id limit by now stamp table =
    let loaded = load_account account_id table in
    override_with config account_id limit by now stamp loaded (truthy loaded.state.account_id) table
