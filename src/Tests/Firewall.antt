-- ===== src/Tests/Firewall.antt =====
-- Firewall rules, selectors and updates on concrete lists.
use fluxip.Base.{◌≡◌, refl, some, none, List, [], ◌∷◌, length, filter, ◌↔◌}
use fluxip.Event.{ok}
use fluxip.Event.Action.{IpValues, inbound, outbound, tcp, udp}
use fluxip.Firewall.{
  HetznerFirewallRule, RuleSelector, selects, match_firewall_rule, apply_firewall_rule_update,
  execute, matches_from, with_address_list, entries_of, address_list, added_entry, to_cidr,
  removed_entry,
}
use fluxip.Firewall.Matching.{Describes, match_firewall_rule-Describes}
use fluxip.Firewall.Update.{
  Updates, apply_firewall_rule_update-Updates, apply_firewall_rule_update_ok,
}

abbrev ssh : HetznerFirewallRule
ssh = record {
  direction = inbound;
  protocol = tcp;
  port = some "22";
  source_ips = some ("10.0.0.1/32" ∷ "192.0.2.7/32" ∷ []);
  destination_ips = none;
  description = some "ssh";
}

abbrev dns : HetznerFirewallRule
dns = record {
  direction = outbound;
  protocol = udp;
  port = some "53";
  source_ips = none;
  destination_ips = some ("0.0.0.0/0" ∷ []);
  description = none;
}

abbrev to_ssh : RuleSelector
to_ssh = record { direction = inbound; protocol = tcp; port = some "22"; description = "ssh" }

abbrev old_address : IpValues
old_address = record { v4 = some "192.0.2.7/32"; v6 = none }

abbrev new_address : IpValues
new_address = record { v4 = some "198.51.100.4/32"; v6 = none }

abbrev after_update : List HetznerFirewallRule
after_update = dns ∷ record ssh { source_ips = some ("10.0.0.1/32" ∷ "198.51.100.4/32" ∷ []) } ∷ []

updates_ssh :
    apply_firewall_rule_update 7 to_ssh old_address new_address (dns ∷ ssh ∷ []) ≡ ok after_update
unfolding apply_firewall_rule_update selects match_firewall_rule matches_from with_address_list
    entries_of address_list
updates_ssh = refl

-- `execute` replaces the entry of the previous execution by the new address.
execute_replaces :
    execute
      (record {
        api_token = "token";
        account_id = "A";
        firewall_id = 7;
        selector = to_ssh;
        previous_entries = old_address;
      })
      (record { v4 = some "198.51.100.4"; v6 = none })
      (dns ∷ ssh ∷ [])
    ≡ ok after_update
unfolding execute added_entry to_cidr removed_entry apply_firewall_rule_update selects
    match_firewall_rule matches_from with_address_list entries_of address_list
execute_replaces = refl

match_firewall_rule-Describes_example :
    Describes (dns ∷ ssh ∷ []) to_ssh (match_firewall_rule (dns ∷ ssh ∷ []) to_ssh)
match_firewall_rule-Describes_example = match_firewall_rule-Describes (dns ∷ ssh ∷ []) to_ssh

apply_firewall_rule_update-Updates_example :
    Updates to_ssh old_address new_address (dns ∷ ssh ∷ []) after_update
apply_firewall_rule_update-Updates_example =
    apply_firewall_rule_update-Updates 7 to_ssh old_address new_address (dns ∷ ssh ∷ [])
      after_update updates_ssh

apply_firewall_rule_update_ok_example :
    ((new_rules : List HetznerFirewallRule) × (apply_firewall_rule_update 7 to_ssh old_address
          new_address
          (dns ∷ ssh ∷ [])
        ≡ ok new_rules))
    ↔ (length (filter (selects to_ssh) (dns ∷ ssh ∷ [])) ≡ 1)
apply_firewall_rule_update_ok_example =
    apply_firewall_rule_update_ok 7 to_ssh old_address new_address (dns ∷ ssh ∷ [])
