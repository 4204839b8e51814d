-- ===== src/Executions.antt =====
-- What the worker of backend/src/adapters/queue-bullmq/action-execution-worker.ts works with. The
-- store, the executors, the channels and the projection are an interface with a state `S`; the
-- world keeps, newest first, the events that the worker asks to append to the execution's stream,
-- the calls of the executor and the messages sent.
pub mod Store
pub mod Notify
pub mod Resolve
pub mod Worker
pub mod Attempt
pub mod Settled
use fluxip.Base.{ℕ, String, Option, List, [], ◌∷◌}
use fluxip.Event.{Result}
use fluxip.Event.Action.{
  IpValues, ActionEvent, ActionConfig, UpdateDnsRecordConfig, UpdateFirewallRuleConfig,
}
use fluxip.Event.Execution.{ActionExecutionEvent, Outcome, TriggeredBy}
use fluxip.Aggregates.Action.{ActionState}
use fluxip.Aggregates.IpClient.{IpClientState}
use fluxip.Aggregates.Settings.{NotificationChannelState, ProviderCredentialState}
use fluxip.Firewall.{HetznerFirewallResolvedConfig}

-- What an awaited step without a value does: it ends, or it throws.
abbrev pub Done : Type 0
Done = Result {0} Unit

pub record DnsResolvedConfig : Type 0 where
  pub api_token : String
  pub zone_name : String
  pub record_name : String
  pub source_label : String

pub data ResolvedConfig : Type 0 where
  for_dns : DnsResolvedConfig → ResolvedConfig
  for_firewall : HetznerFirewallResolvedConfig → ResolvedConfig
  no_config : ResolvedConfig

pub record NotificationMessage : Type 0 where
  pub addresses : List String
  pub execution_id : String
  pub ip_client_id : String
  pub outcome : Outcome

-- The loads, `appendExecutionEvent`, the append to the action's stream, `refreshExecutionProjection`,
-- what the fields of a configuration read as that is cast from another type, `decryptSecret`, and the
-- registered executors and channels.
pub record WorkerPort (S : Type 0) : Type 0 where
  pub load_action : S → Result ActionState
  pub load_client : S → Result IpClientState
  pub load_channel : S → Result NotificationChannelState
  pub load_credential : String → S → Result ProviderCredentialState
  pub append_execution : ActionExecutionEvent → S → Done × S
  pub append_action : ActionEvent → S → Done × S
  pub refresh : S → Done × S
  pub other_dns : ActionConfig → UpdateDnsRecordConfig
  pub other_firewall : ActionConfig → UpdateFirewallRuleConfig
  pub decrypt : String → Result String
  pub executors : String → Option (ResolvedConfig → IpValues → S → Result String × S)
  pub channels : String → Option (NotificationMessage → S → Done × S)

pub record ActionExecutionJob : Type 0 where
  pub account_id : String
  pub execution_id : String
  pub action_id : String
  pub ip_client_id : String
  pub causation_event_id : String
  pub triggered_by : TriggeredBy
  pub ip_values : IpValues
  pub attempts_made : ℕ
  pub attempts : Option ℕ

pub record World (S : Type 0) : Type 0 where
  pub store : S
  pub recorded : List ActionExecutionEvent
  pub executed : List IpValues
  pub sent : List NotificationMessage
