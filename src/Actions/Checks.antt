-- ===== src/Actions/Checks.antt =====
-- The checks of the routes of actions: the credential, the selector of a firewall rule, and the
-- target of a delivery. All are functions of backend/src/adapters/http/routes/actions.ts.
use fluxip.Base.{
  String, Bool, true, false, not, ◌||◌, ◌&&◌, Option, none, some, List, find, nat_eq, truthy,
  nonempty, opt_eq, ◌==◌, if◌then◌else◌, is_some,
}
use fluxip.Event.{Result, ok, err, Failure}
use fluxip.Event.Action.{
  ActionConfig, dns, firewall, traefik, UpdateFirewallRuleConfig, TraefikConfigDeliveryConfig,
}
use fluxip.Event.Settings.{provider_credential_aggregate_type}
use fluxip.EventStore.{Table, load_aggregate}
use fluxip.Aggregates.Settings.{
  ProviderCredentialState, SettingStatus, in_use, withdrawn, initial_provider_credential_state,
  provider_credential_reducer,
}
use fluxip.ProviderStore.{load_active}
use fluxip.Devices.Delivery.{DeliveryAction, list_delivery_actions, as_delivery}
use fluxip.Firewall.{
  HetznerFirewallRule, MatchFirewallRuleResult, rule, no_match, ambiguous_match,
  match_firewall_rule,
}
use fluxip.Actions.{ActionsDeps, ActionReply, refused}

abbrev is_active : SettingStatus → Bool
is_active in_use = true
is_active withdrawn = false

some_token : Result String → Result (Option String)
some_token (err f) = err f
some_token (ok token) = ok (some token)

credential_token : ActionsDeps → ProviderCredentialState → Option String → Result (Option String)
unfolding some_token
credential_token deps state none = ok none
credential_token deps state (some secret) =
    if not (truthy state.credential_id)
      || not (opt_eq state.account_id (some deps.account_id))
      || not (is_active state.status)
      || not (nonempty secret)
    then ok none
    else some_token (deps.decrypt secret)

unfoldable pub load_owned_active_credential : ActionsDeps → String → Table → Result (Option String)
unfolding credential_token
load_owned_active_credential deps credential_id table =
    let state =
      (load_aggregate table
        (record {
          account_id = deps.account_id;
          aggregate_type = provider_credential_aggregate_type;
          aggregate_id = credential_id;
        })
        initial_provider_credential_state provider_credential_reducer).state in
    if nonempty credential_id then credential_token deps state state.encrypted_secret else ok none

selector_verdict : MatchFirewallRuleResult → Option ActionReply
selector_verdict (rule _ _) = none
selector_verdict no_match = some (refused 422 "rule_selector_no_match")
selector_verdict (ambiguous_match _) = some (refused 422 "rule_selector_ambiguous")

selector_in : UpdateFirewallRuleConfig → Option (List HetznerFirewallRule) → Option ActionReply
unfolding selector_verdict
selector_in config none = some (refused 400 "firewall_not_found")
selector_in config (some rules) = selector_verdict (
    match_firewall_rule rules (record {
      direction = config.direction;
      protocol = config.protocol;
      port = config.port;
      description = config.description;
    }))

-- The refusal, or nothing where the selector is fine.
unfoldable pub validate_firewall_selector :
    ActionsDeps → String → UpdateFirewallRuleConfig → Option ActionReply
unfolding selector_in
validate_firewall_selector deps token config =
    selector_in config (deps.get_firewall token config.firewall_id)

pub data DeliveryValidation : Type 0 where
  valid : TraefikConfigDeliveryConfig → DeliveryValidation
  invalid : ActionReply → DeliveryValidation

-- `(raw ?? {}) as Partial<…>`: what is missing is read as the empty text.
unfoldable pub raw_delivery : Option ActionConfig → TraefikConfigDeliveryConfig
raw_delivery none = record { traefik_provider_id = ""; group = "" }
raw_delivery (some config) = as_delivery config

unfoldable pub clashes : String → String → Option String → DeliveryAction → Bool
clashes ip_client_id provider_id ignored action =
    action.ip_client_id == ip_client_id
    && action.traefik_provider_id == provider_id
    && not (opt_eq (some action.action_id) ignored)

unfoldable pub with_clash : TraefikConfigDeliveryConfig → Option DeliveryAction → DeliveryValidation
with_clash config none = valid config
with_clash config (some clash) = invalid (refused 409 "delivery_action_exists")

unfoldable pub validate_delivery_config :
    ActionsDeps → String → Option ActionConfig → Option String → Table → DeliveryValidation
unfolding raw_delivery clashes with_clash
validate_delivery_config deps ip_client_id raw ignored table =
    let provider_id = (raw_delivery raw).traefik_provider_id in
    let group = deps.trim (raw_delivery raw).group in
    if not deps.has_providers
    then invalid (refused 500 "traefik providers are not available")
    else if not (nonempty provider_id)
    then invalid (refused 422 "config.traefikProviderId is required")
    else if not (deps.group_pattern group)
    then invalid (refused 422 "invalid_group")
    else if not (is_some (load_active deps.account_id provider_id table))
    then invalid (refused 404 "traefik_provider_not_found")
    else with_clash (record { traefik_provider_id = provider_id; group = group })
        (find (clashes ip_client_id provider_id ignored)
          (list_delivery_actions deps.account_id table))

-- The configuration that an attached action gets, the refusal, or the error that was thrown.
pub data ConfigCheck : Type 0 where
  accepted : ActionConfig → ConfigCheck
  rejected : ActionReply → ConfigCheck
  check_thrown : Failure → ConfigCheck

unfoldable pub check_delivery : DeliveryValidation → ConfigCheck
check_delivery (valid config) = accepted (traefik config)
check_delivery (invalid reply) = rejected reply

reply_or : ActionConfig → Option ActionReply → ConfigCheck
reply_or config none = accepted config
reply_or config (some reply) = rejected reply

check_token : ActionConfig → (String → Option ActionReply) → Result (Option String) → ConfigCheck
unfolding reply_or
check_token config validate (err f) = check_thrown f
check_token config validate (ok none) = rejected (refused 400 "invalid providerCredentialId")
check_token config validate (ok (some token)) = reply_or config (validate token)

unfoldable pub check_dns : ActionsDeps → Option ActionConfig → Table → ConfigCheck
unfolding check_token
check_dns deps (some (dns config)) table =
    let rest =
      check_token (dns config) (λ _. none)
        (load_owned_active_credential deps config.provider_credential_id table) in
    if not (nonempty config.provider_credential_id)
      || not (nonempty config.zone)
      || not (nonempty config.record_name)
    then rejected (refused 400 "config.providerCredentialId, zone, and recordName are required")
    else rest
check_dns deps _ table =
    rejected (refused 400 "config.providerCredentialId, zone, and recordName are required")

unfoldable pub check_firewall : ActionsDeps → Option ActionConfig → Table → ConfigCheck
unfolding check_token
check_firewall deps (some (firewall config)) table =
    let rest =
      check_token (firewall config) (λ token. validate_firewall_selector deps token config)
        (load_owned_active_credential deps config.provider_credential_id table) in
    if not (nonempty config.provider_credential_id)
      || nat_eq config.firewall_id 0
      || not (nonempty config.description)
    then rejected (
        refused 400
          "config.providerCredentialId, firewallId, direction, protocol, and description are required")
    else rest
check_firewall deps _ table = rejected (
    refused 400
      "config.providerCredentialId, firewallId, direction, protocol, and description are required")
