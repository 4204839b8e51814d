-- ===== src/Firewall.antt =====
-- The firewall rule update: backend/src/domain/action/firewall-rule-selector.ts and
-- backend/src/adapters/actions/hetzner-firewall/hetzner-firewall-executor.ts. The rules that
-- Hetzner's API returns are an argument, and the rules that are sent back are the result. A rule
-- object is told from its equals by its position, as `===` tells them.
pub mod Matching
pub mod Update
use Prim.Native.String.{◌++◌}
use fluxip.Base.{
  ℕ, zero, suc, ◌+◌, String, Bool, not, ◌&&◌, ◌||◌, ◌==◌, Option, none, some, List, [], ◌∷◌, nat_eq,
  decimal, opt_eq, get_or, truthy, if◌then◌else◌, filter, length, contains,
}
use mathlib.Core.List
use fluxip.Event.{Result, ok, err, failure}
use fluxip.Event.Action.{
  AddressFamily, ipv4, ipv6, Direction, inbound, outbound, Protocol, tcp, udp, icmp, esp, ah, gre,
  IpValues,
}

abbrev pub direction_name : Direction → String
direction_name inbound = "in"
direction_name outbound = "out"

abbrev pub protocol_name : Protocol → String
protocol_name tcp = "tcp"
protocol_name udp = "udp"
protocol_name icmp = "icmp"
protocol_name esp = "esp"
protocol_name ah = "ah"
protocol_name gre = "gre"

pub record HetznerFirewallRule : Type 0 where
  pub direction : Direction
  pub protocol : Protocol
  pub port : Option String
  pub source_ips : Option (List String)
  pub destination_ips : Option (List String)
  pub description : Option String

pub record RuleSelector : Type 0 where
  pub direction : Direction
  pub protocol : Protocol
  pub port : Option String
  pub description : String

-- The rule comes with its position.
pub data MatchFirewallRuleResult : Type 0 where
  rule : ℕ → HetznerFirewallRule → MatchFirewallRuleResult
  no_match : MatchFirewallRuleResult
  ambiguous_match : ℕ → MatchFirewallRuleResult

unfoldable pub selects : RuleSelector → HetznerFirewallRule → Bool
selects selector r =
    direction_name r.direction == direction_name selector.direction
    && protocol_name r.protocol == protocol_name selector.protocol
    && opt_eq r.port selector.port
    && get_or r.description "" == selector.description

-- The rules that the selector matches, each with its position, counted from `i`.
unfoldable pub matches_from :
    ℕ → RuleSelector → List HetznerFirewallRule → List (ℕ × HetznerFirewallRule)
matches_from i selector [] = []
matches_from i selector (r ∷ rs) =
    let rest = matches_from (suc i) selector rs in
    if selects selector r then (i, r) ∷ rest else rest

unfoldable pub result_of_matches : List (ℕ × HetznerFirewallRule) → MatchFirewallRuleResult
result_of_matches [] = no_match
result_of_matches ((i, r) ∷ []) = rule i r
result_of_matches (a ∷ b ∷ rest) = ambiguous_match (length (a ∷ b ∷ rest))

unfoldable pub match_firewall_rule :
    List HetznerFirewallRule → RuleSelector → MatchFirewallRuleResult
unfolding result_of_matches
match_firewall_rule rules selector = result_of_matches (matches_from 0 selector rules)

pub record HetznerFirewallResolvedConfig : Type 0 where
  pub api_token : String
  pub account_id : String
  pub firewall_id : ℕ
  pub selector : RuleSelector
  pub previous_entries : IpValues

unfoldable pub to_cidr : String → AddressFamily → String
to_cidr address ipv4 = address ++ "/32"
to_cidr address ipv6 = address ++ "/128"

present : Option String → List String
present none = []
present (some s) = if truthy (some s) then s ∷ [] else []

-- `Object.values(entries).filter(Boolean)`, the IPv4 entry first
unfoldable pub entries_of : IpValues → List String
unfolding present
entries_of v = List.◌++◌ (present v.v4) (present v.v6)

-- `if (!nextList.includes(cidr)) nextList.push(cidr)` for each
unfoldable pub push_missing : List String → List String → List String
push_missing list [] = list
push_missing list (cidr ∷ cidrs) =
    push_missing (if contains list cidr then list else List.◌++◌ list (cidr ∷ [])) cidrs

unfoldable pub next_list : List String → List String → List String → List String
unfolding push_missing
next_list current to_remove to_add =
    push_missing (filter (λ ip. not (contains to_remove ip)) current) to_add

list_under : Direction → HetznerFirewallRule → List String
list_under inbound r = get_or r.source_ips []
list_under outbound r = get_or r.destination_ips []

-- `matched.rule[listKey] ?? []`
unfoldable pub address_list : HetznerFirewallRule → List String
unfolding list_under
address_list r = list_under r.direction r

put_under : Direction → List String → HetznerFirewallRule → HetznerFirewallRule
put_under inbound list r = record r { source_ips = some list }
put_under outbound list r = record r { destination_ips = some list }

-- `{ ...rule, [listKey]: list }`
unfoldable pub with_address_list : List String → HetznerFirewallRule → HetznerFirewallRule
unfolding put_under
with_address_list list r = put_under r.direction list r

-- `rules.map((rule) => (rule === matched.rule ? … : rule))`
unfoldable pub replace_at :
    ℕ → HetznerFirewallRule → List HetznerFirewallRule → List HetznerFirewallRule
replace_at i new [] = []
replace_at zero new (r ∷ rs) = new ∷ rs
replace_at (suc i) new (r ∷ rs) = r ∷ replace_at i new rs

-- The branches on what was matched.
unfoldable pub update_matched :
    ℕ
    → IpValues
    → IpValues
    → List HetznerFirewallRule
    → MatchFirewallRuleResult
    → Result (List HetznerFirewallRule)
unfolding next_list replace_at
update_matched firewall_id remove add rules no_match = err (
    failure (
      "No firewall rule on firewall "
      ++ decimal firewall_id
      ++ " matches the configured selector (direction/protocol/port/description)"))
update_matched firewall_id remove add rules (ambiguous_match n) = err (
    failure (
      decimal n
      ++ " firewall rules on firewall "
      ++ decimal firewall_id
      ++ " match the configured selector; expected exactly one"))
update_matched firewall_id remove add rules (rule i r) = ok (
    replace_at i
      (with_address_list (next_list (address_list r) (entries_of remove) (entries_of add)) r) rules)

-- `applyFirewallRuleUpdate` between the lock and its release: the rules read, the rules to set.
unfoldable pub apply_firewall_rule_update :
    ℕ
    → RuleSelector
    → IpValues
    → IpValues
    → List HetznerFirewallRule
    → Result (List HetznerFirewallRule)
unfolding update_matched
apply_firewall_rule_update firewall_id selector remove add rules =
    update_matched firewall_id remove add rules (match_firewall_rule rules selector)

-- The entry of one family that `execute` adds, and the one that it removes.
unfoldable pub added_entry : AddressFamily → Option String → Option String
added_entry family none = none
added_entry family (some value) = if truthy (some value) then some (to_cidr value family) else none

unfoldable pub removed_entry : Option String → Option String → Option String
removed_entry value previous =
    if truthy value then (if truthy previous then previous else none) else none

-- `HetznerFirewallExecutor.execute`; the summary of the result is not modelled.
unfoldable pub execute :
    HetznerFirewallResolvedConfig
    → IpValues
    → List HetznerFirewallRule
    → Result (List HetznerFirewallRule)
execute config ip_values rules =
    if truthy ip_values.v4 || truthy ip_values.v6
    then apply_firewall_rule_update config.firewall_id config.selector
        (record {
          v4 = removed_entry ip_values.v4 config.previous_entries.v4;
          v6 = removed_entry ip_values.v6 config.previous_entries.v6;
        })
        (record { v4 = added_entry ipv4 ip_values.v4; v6 = added_entry ipv6 ip_values.v6 }) rules
    else err (failure "No IP values supplied to update")
