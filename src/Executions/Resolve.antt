-- ===== src/Executions/Resolve.antt =====
-- The configuration that an attempt of backend/src/adapters/queue-bullmq/action-execution-worker.ts
-- resolves for its executor, and the tests of the attempt.
use Prim.Native.String.{◌++◌}
use fluxip.Base.{
  decimal, ℕ, ◌+◌, String, Bool, true, false, not, ◌&&◌, Option, none, some, List, truthy, get_or,
  leb, any, opt_eq, if◌then◌else◌,
}
use fluxip.Event.{Result, ok, err, Failure, failure, concurrency_error}
use fluxip.Event.Action.{
  AddressFamily, ipv4, ipv6, ActionConfig, IpValues, dns, firewall, UpdateDnsRecordConfig,
  UpdateFirewallRuleConfig, hetzner_cloud_dns_update_action_type,
  hetzner_cloud_firewall_rule_update_action_type,
}
use fluxip.Aggregates.Action.{ActionState}
use fluxip.Aggregates.Settings.{ProviderCredentialState}
use fluxip.Executions.{
  WorkerPort, ActionExecutionJob, ResolvedConfig, for_dns, for_firewall, no_config,
}
use fluxip.Executions.Notify.{is_in_use}

unfoldable pub family_missing : IpValues → AddressFamily → Bool
family_missing values ipv4 = not (truthy values.v4)
family_missing values ipv6 = not (truthy values.v6)

abbrev pub is_family : AddressFamily → AddressFamily → Bool
is_family ipv4 ipv4 = true
is_family ipv6 ipv6 = true
is_family _ _ = false

-- The values of the families that the action updates.
unfoldable pub relevant_values : List AddressFamily → IpValues → IpValues
relevant_values families values = record {
  v4 = if any (is_family ipv4) families then values.v4 else none;
  v6 = if any (is_family ipv6) families then values.v6 else none;
}

abbrev pub is_firewall : Option String → Bool
is_firewall action_type = opt_eq action_type (some hetzner_cloud_firewall_rule_update_action_type)

usable_secret : ProviderCredentialState → Option String → Result String
usable_secret credential none = err (failure "Provider Credential is missing or has been revoked")
usable_secret credential (some secret) =
    if truthy (some secret) && is_in_use credential.status
    then ok secret
    else err (failure "Provider Credential is missing or has been revoked")

abbrev pub attempt_of : ActionExecutionJob → ℕ
attempt_of job = job.attempts_made + 1

abbrev pub is_final_attempt : ActionExecutionJob → Bool
is_final_attempt job = leb (get_or job.attempts 1) (attempt_of job)

abbrev pub message_of : Failure → String
message_of (failure m) = m
message_of (concurrency_error aggregate_type aggregate_id n) =
    "Concurrency conflict appending to "
    ++ aggregate_type
    ++ "/"
    ++ aggregate_id
    ++ " at sequence "
    ++ decimal n

module _ {S : Type 0} (port : WorkerPort S) (job : ActionExecutionJob) (source_label : String) where
  with_token : (String → ResolvedConfig) → Result String → Result ResolvedConfig
  with_token make (err f) = err f
  with_token make (ok token) = ok (make token)

  with_secret : (String → ResolvedConfig) → Result String → Result ResolvedConfig
  unfolding with_token
  with_secret make (err f) = err f
  with_secret make (ok secret) = with_token make (port.decrypt secret)

  with_credential :
      (String → ResolvedConfig) → Result ProviderCredentialState → Result ResolvedConfig
  unfolding with_secret usable_secret
  with_credential make (err f) = err f
  with_credential make (ok credential) =
      with_secret make (usable_secret credential credential.encrypted_secret)

  resolve_dns_executor_config : UpdateDnsRecordConfig → S → Result ResolvedConfig
  unfolding with_credential
  resolve_dns_executor_config config store =
      with_credential
        (λ token. for_dns (record {
          api_token = token;
          zone_name = config.zone;
          record_name = config.record_name;
          source_label = source_label;
        }))
        (port.load_credential config.provider_credential_id store)

  resolve_firewall_executor_config : UpdateFirewallRuleConfig → IpValues → S → Result ResolvedConfig
  unfolding with_credential
  resolve_firewall_executor_config config previous store =
      with_credential
        (λ token. for_firewall (record {
          api_token = token;
          account_id = job.account_id;
          firewall_id = config.firewall_id;
          selector = record {
            direction = config.direction;
            protocol = config.protocol;
            port = config.port;
            description = config.description;
          };
          previous_entries = previous;
        }))
        (port.load_credential config.provider_credential_id store)

  as_dns : ActionConfig → UpdateDnsRecordConfig
  as_dns (dns config) = config
  as_dns other = port.other_dns other

  as_firewall : ActionConfig → UpdateFirewallRuleConfig
  as_firewall (firewall config) = config
  as_firewall other = port.other_firewall other

  unfoldable pub resolve_config : ActionState → ActionConfig → S → Result ResolvedConfig
  unfolding resolve_dns_executor_config resolve_firewall_executor_config as_dns as_firewall
  resolve_config state config store =
      if opt_eq state.action_type (some hetzner_cloud_dns_update_action_type)
      then resolve_dns_executor_config (as_dns config) store
      else if is_firewall state.action_type
      then resolve_firewall_executor_config (as_firewall config) state.firewall_owned_entries store
      else ok no_config
