-- ===== src/Aggregates/Account.antt =====
-- backend/src/domain/account/account-aggregate.ts
use fluxip.Base.{ℕ, String, Option, none, some}
use fluxip.Event.{Payload, of_account, StoredEvent}
use fluxip.Event.Account.{registered, device_limit_overridden, closed}

pub data AccountStatus : Type 0 where
  active account_closed : AccountStatus

pub record AccountState : Type 0 where
  pub account_id : Option String
  pub device_limit : ℕ
  pub status : AccountStatus

abbrev pub initial_account_state : AccountState
initial_account_state = record { account_id = none; device_limit = 0; status = active }

unfoldable pub fold_account : AccountState → Payload → AccountState
fold_account state (of_account (registered d)) = record {
  account_id = some d.account_id;
  device_limit = d.device_limit;
  status = active;
}
fold_account state (of_account (device_limit_overridden d)) = record state {
  device_limit = d.new_limit;
}
fold_account state (of_account (closed _)) = record state { status = account_closed }
fold_account state _ = state

unfoldable pub account_reducer : AccountState → StoredEvent → AccountState
unfolding fold_account
account_reducer state event = fold_account state event.payload
