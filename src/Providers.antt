-- ===== src/Providers.antt =====
-- The routes of the Traefik providers of one account, signed in as `account_id`:
-- backend/src/adapters/http/routes/traefik-providers.ts. What a reply shows of a provider is left to
-- `Providers.View`; the calls that end sessions are recorded, newest first. `trim`, `toLowerCase`, the
-- length of a text and new tokens are arguments.
pub mod View
pub mod Steps
pub mod Routes
pub mod Lifecycle
pub mod Tokens
use fluxip.Base.{ℕ, String, Option, List}
use fluxip.Event.{CloudEventsConfig, Stamp}
use fluxip.EventStore.{Table, Loaded}
use fluxip.Aggregates.Provider.{TraefikProviderState}
use fluxip.Devices.Delivery.{DeliveryAction}

pub record ProviderDeps : Type 0 where
  pub config : CloudEventsConfig
  pub account_id : String
  pub agent_public_url : Option String
  pub trim : String → String
  pub lower : String → String
  pub text_length : String → ℕ

abbrev pub name_max : ℕ
name_max = 100

-- `generateAgentToken` with its new id and the clock of the event's data.
pub record NewToken : Type 0 where
  pub token_id : String
  pub plaintext : String
  pub hash : String
  pub last4 : String
  pub now : String

pub data Termination : Type 0 where
  by_provider : String → Termination
  by_token : String → String → Termination

pub record World : Type 0 where
  pub table : Table
  pub terminated : List Termination

pub data Reply : Type 0 where
  refused : ℕ → String → Reply
  in_use : List DeliveryAction → Reply
  new_provider : String → String → NewToken → Reply
  new_token : NewToken → Reply
  one_provider : TraefikProviderState → List DeliveryAction → Reply
  all_providers : List (Loaded TraefikProviderState) → List DeliveryAction → Reply
  no_content : Reply
