-- ===== src/Firewall/Update.antt =====
-- The address list of the matched rule, and the other rules, after an update.
use fluxip.Base.{
  ℕ, zero, suc, ◌≡◌, ◌≢◌, ◌↔◌, refl, Option, ap, ◌∙◌, inl, inr, String, true, not, ◌&&◌, ◌||◌, some,
  List, [], ◌∷◌, ◌++◌, eq_iff, arith, Bool-cases, filter, get_elem?, length, contains,
  contains-append,
}
use fluxip.Event.{ok}
use fluxip.Event.Action.{IpValues, Direction, inbound, outbound}
use fluxip.Firewall.{
  HetznerFirewallRule, RuleSelector, MatchFirewallRuleResult, update_matched, rule, no_match,
  ambiguous_match, selects, match_firewall_rule, entries_of, push_missing, next_list, address_list,
  with_address_list, replace_at, apply_firewall_rule_update,
}
use fluxip.Firewall.Matching.{Describes, match_firewall_rule-Describes}

contains-filter :
    (removed xs : List String) (s : String)
    → contains (filter (λ ip. not (contains removed ip)) xs) s
      ≡ (contains xs s && not (contains removed s))
contains-filter removed [] s = refl
contains-filter removed (x ∷ xs) s = ground (arith, eq_iff x s, contains-filter removed xs s)

contains-push_missing :
    (list cidrs : List String) (s : String)
    → contains (push_missing list cidrs) s ≡ (contains list s || contains cidrs s)
unfolding push_missing
contains-push_missing list [] s = ground arith
contains-push_missing list (c ∷ cs) s = elim (Bool-cases (contains list c)) [
  | inl y ↦ rw y (ground (arith, eq_iff c s, contains-push_missing list cs s))
  | inr n ↦
      rw n (
        ground
          (arith, contains-push_missing (list ++ c ∷ []) cs s, contains-append list (c ∷ []) s))
]

-- The new list has an address exactly if the old list has it and it is not removed, or it is added.
pub contains-next_list :
    (current to_remove to_add : List String) (s : String)
    → contains (next_list current to_remove to_add) s
      ≡ (contains current s && not (contains to_remove s) || contains to_add s)
unfolding next_list
contains-next_list current to_remove to_add s =
    contains-push_missing (filter (λ ip. not (contains to_remove ip)) current) to_add s
    ∙ ap (λ b. b || contains to_add s) (contains-filter to_remove current s)

address_list-with_address_list :
    (list : List String) (r : HetznerFirewallRule) → address_list (with_address_list list r) ≡ list
unfolding address_list with_address_list
address_list-with_address_list list r = by_direction r.direction refl
  where
    by_direction :
        (d : Direction) → r.direction ≡ d → address_list (with_address_list list r) ≡ list
    by_direction inbound e = ground arith
    by_direction outbound e = ground arith

-- The list that the direction of a rule leaves unused.
abbrev pub unused_list : Direction → HetznerFirewallRule → Option (List String)
unused_list inbound r = r.destination_ips
unused_list outbound r = r.source_ips

-- Two rules that agree in all but the address list.
pub record IsSameBut (r new : HetznerFirewallRule) : Type 0 where
  pub direction : new.direction ≡ r.direction
  pub protocol : new.protocol ≡ r.protocol
  pub port : new.port ≡ r.port
  pub description : new.description ≡ r.description
  pub unused : unused_list r.direction new ≡ unused_list r.direction r

with_address_list-IsSameBut :
    (list : List String) (r : HetznerFirewallRule) → IsSameBut r (with_address_list list r)
unfolding with_address_list
with_address_list-IsSameBut list r = by_direction r.direction refl
  where
    by_direction : (d : Direction) → r.direction ≡ d → IsSameBut r (with_address_list list r)
    by_direction inbound e = rw e (record {
      direction = refl;
      protocol = refl;
      port = refl;
      description = refl;
      unused = refl;
    })
    by_direction outbound e = rw e (record {
      direction = refl;
      protocol = refl;
      port = refl;
      description = refl;
      unused = refl;
    })

get_elem?-replace_at_self :
    (i : ℕ) (new r : HetznerFirewallRule) (rs : List HetznerFirewallRule)
    → get_elem? rs i ≡ some r
    → get_elem? (replace_at i new rs) i ≡ some new
unfolding replace_at
get_elem?-replace_at_self i new r [] e = cc
get_elem?-replace_at_self zero new r (x ∷ xs) e = refl
get_elem?-replace_at_self (suc i) new r (x ∷ xs) e = get_elem?-replace_at_self i new r xs e

get_elem?-replace_at_ne :
    (i j : ℕ) (new : HetznerFirewallRule) (rs : List HetznerFirewallRule)
    → i ≢ j
    → get_elem? (replace_at i new rs) j ≡ get_elem? rs j
unfolding replace_at
get_elem?-replace_at_ne i j new [] h = refl
get_elem?-replace_at_ne zero zero new (x ∷ xs) h = absurd (h refl)
get_elem?-replace_at_ne zero (suc j) new (x ∷ xs) h = refl
get_elem?-replace_at_ne (suc i) zero new (x ∷ xs) h = refl
get_elem?-replace_at_ne (suc i) (suc j) new (x ∷ xs) h =
    get_elem?-replace_at_ne i j new xs (λ e. h (ap suc e))

-- `new_rules` are `rules` but for the address list of one selected rule, which keeps every address
-- that is not in `remove`, and gains those of `add`.
pub record Updates (selector : RuleSelector) (remove add : IpValues)
    (rules new_rules : List HetznerFirewallRule) : Type 0 where
  pub position : ℕ
  pub matched : HetznerFirewallRule
  pub list : List String
  pub found : get_elem? rules position ≡ some matched
  pub selected : selects selector matched ≡ true
  pub written : get_elem? new_rules position ≡ some (with_address_list list matched)
  pub addresses :
      (s : String)
      → contains (address_list (with_address_list list matched)) s ≡ (
          contains (address_list matched) s && not (contains (entries_of remove) s)
          || contains (entries_of add) s)
  pub kept : IsSameBut matched (with_address_list list matched)
  pub others : (j : ℕ) → position ≢ j → get_elem? new_rules j ≡ get_elem? rules j

module _ (firewall_id : ℕ) (selector : RuleSelector) (remove add : IpValues)
    (rules : List HetznerFirewallRule) where
  update_matched-Updates :
      (found : MatchFirewallRuleResult) (new_rules : List HetznerFirewallRule)
      → Describes rules selector found
      → update_matched firewall_id remove add rules found ≡ ok new_rules
      → Updates selector remove add rules new_rules
  unfolding update_matched
  update_matched-Updates no_match new_rules d e = cc
  update_matched-Updates (ambiguous_match n) new_rules d e = cc
  update_matched-Updates (rule i r) new_rules (at, sel, one) e =
      let l : List String = next_list (address_list r) (entries_of remove) (entries_of add) in
      let q : new_rules ≡ replace_at i (with_address_list l r) rules = cc in
      record {
        position = i;
        matched = r;
        list = l;
        found = at;
        selected = sel;
        written = rw q (get_elem?-replace_at_self i (with_address_list l r) r rules at);
        addresses = λ s.
            rw (address_list-with_address_list l r)
              (contains-next_list (address_list r) (entries_of remove) (entries_of add) s);
        kept = with_address_list-IsSameBut l r;
        others = λ j ne. rw q (get_elem?-replace_at_ne i j (with_address_list l r) rules ne);
      }

  -- An update that succeeds sends back the rules that it read, changed only in the address list of
  -- the one rule that the selector selects: an address is in the new list exactly if it is added, or
  -- was there and is not removed.
  pub apply_firewall_rule_update-Updates :
      (new_rules : List HetznerFirewallRule)
      → apply_firewall_rule_update firewall_id selector remove add rules ≡ ok new_rules
      → Updates selector remove add rules new_rules
  unfolding apply_firewall_rule_update
  apply_firewall_rule_update-Updates new_rules e =
      update_matched-Updates (match_firewall_rule rules selector) new_rules
        (match_firewall_rule-Describes rules selector) e

  update_matched-one :
      (found : MatchFirewallRuleResult)
      → Describes rules selector found
      → length (filter (selects selector) rules) ≡ 1
      → (new_rules : List HetznerFirewallRule) × (update_matched firewall_id remove add rules found
          ≡ ok new_rules)
  unfolding update_matched
  update_matched-one no_match d one = absurd (omega arith)
  update_matched-one (ambiguous_match n) d one = absurd (omega arith)
  update_matched-one (rule i r) d one = (
    replace_at i
        (with_address_list (next_list (address_list r) (entries_of remove) (entries_of add)) r)
        rules,
    refl,
  )

  update_matched_single :
      (found : MatchFirewallRuleResult) (new_rules : List HetznerFirewallRule)
      → Describes rules selector found
      → update_matched firewall_id remove add rules found ≡ ok new_rules
      → length (filter (selects selector) rules) ≡ 1
  unfolding update_matched
  update_matched_single no_match new_rules d e = cc
  update_matched_single (ambiguous_match n) new_rules d e = cc
  update_matched_single (rule i r) new_rules d e = d.2

  -- The update succeeds exactly if the selector selects one rule of those that were read; with none
  -- or several it fails, and nothing is sent.
  pub apply_firewall_rule_update_ok :
      ((new_rules : List HetznerFirewallRule) × (apply_firewall_rule_update firewall_id selector
            remove add rules
          ≡ ok new_rules))
      ↔ (length (filter (selects selector) rules) ≡ 1)
  unfolding apply_firewall_rule_update
  apply_firewall_rule_update_ok = (
    λ e.
        update_matched_single (match_firewall_rule rules selector) e.0
          (match_firewall_rule-Describes rules selector) e.1,
    update_matched-one (match_firewall_rule rules selector)
        (match_firewall_rule-Describes rules selector),
  )
