-- ===== src/Event/Account.antt =====
-- backend/src/domain/account/events.ts
use fluxip.Base.{ℕ, String}

abbrev pub account_aggregate_type : String
account_aggregate_type = "account"

pub record AccountRegisteredData : Type 0 where
  pub account_id : String
  pub device_limit : ℕ
  pub registered_at : String

pub record AccountDeviceLimitOverriddenData : Type 0 where
  pub account_id : String
  pub previous_limit : ℕ
  pub new_limit : ℕ
  pub overridden_by : String
  pub overridden_at : String

pub record AccountClosedData : Type 0 where
  pub account_id : String
  pub closed_at : String

pub data AccountEvent : Type 0 where
  registered : AccountRegisteredData → AccountEvent
  device_limit_overridden : AccountDeviceLimitOverriddenData → AccountEvent
  closed : AccountClosedData → AccountEvent

abbrev pub account_event_name : AccountEvent → String
account_event_name (registered _) = "registered"
account_event_name (device_limit_overridden _) = "device_limit_overridden"
account_event_name (closed _) = "closed"
