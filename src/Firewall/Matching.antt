-- ===== src/Firewall/Matching.antt =====
-- `matchFirewallRule` beside a description of its three results.
use fluxip.Base.{
  ℕ, zero, suc, ◌+◌, ◌≤◌, ◌≡◌, refl, sym, ap, ◌∙◌, ◌⊎◌, inl, inr, true, some, List, [], ◌∷◌, arith,
  Bool-cases, length, In, filter, get_elem?,
}
use fluxip.Firewall.{
  HetznerFirewallRule, RuleSelector, MatchFirewallRuleResult, rule, no_match, ambiguous_match,
  selects, matches_from, result_of_matches, match_firewall_rule,
}

-- As many matches as selected rules.
length-matches_from :
    (i : ℕ) (s : RuleSelector) (rs : List HetznerFirewallRule)
    → length (matches_from i s rs) ≡ length (filter (selects s) rs)
unfolding matches_from
length-matches_from i s [] = refl
length-matches_from i s (r ∷ rs) = ground (arith, length-matches_from (suc i) s rs)

-- A match stands at its position, and is selected.
In-matches_from :
    (i : ℕ) (s : RuleSelector) (rs : List HetznerFirewallRule) (k : ℕ) (r : HetznerFirewallRule)
    → In (k, r) (matches_from i s rs)
    → (n : ℕ) × (k ≡ i + n) × (get_elem? rs n ≡ some r) × (selects s r ≡ true)
unfolding matches_from
In-matches_from i s [] k r h = elim h [ ]
In-matches_from i s (x ∷ xs) k r h = elim (Bool-cases (selects s x)) [
  | inl y ↦
      let h' : (◌≡◌ {A = ℕ × HetznerFirewallRule} (k, r) (i, x))
          ⊎ In (k, r) (matches_from (suc i) s xs) =
        rw y at h in
      elim h' [
        | inl e ↦ (
          zero,
          omega (arith, ap (λ (t : ℕ × HetznerFirewallRule). t.0) e),
          ap (λ (t : ℕ × HetznerFirewallRule). some t.1) (sym e),
          ap (λ (t : ℕ × HetznerFirewallRule). selects s t.1) e ∙ y,
        )
        | inr m ↦
            let (n, e, g, q) = In-matches_from (suc i) s xs k r m in (suc n, omega arith, g, q)
      ]
  | inr p ↦
      let (n, e, g, q) = In-matches_from (suc i) s xs k r (rw p at h) in (suc n, omega arith, g, q)
]

-- What a result says of the rules and the selector.
abbrev pub Describes : List HetznerFirewallRule → RuleSelector → MatchFirewallRuleResult → Type 0
Describes rules s (rule i r) =
    (get_elem? rules i ≡ some r) × (selects s r ≡ true) × (length (filter (selects s) rules) ≡ 1)
Describes rules s no_match = length (filter (selects s) rules) ≡ 0
Describes rules s (ambiguous_match n) = (n ≡ length (filter (selects s) rules)) × (2 ≤ n)

result-Describes :
    (rules : List HetznerFirewallRule) (s : RuleSelector) (found : List (ℕ × HetznerFirewallRule))
    → matches_from 0 s rules ≡ found
    → Describes rules s (result_of_matches found)
unfolding result_of_matches
result-Describes rules s [] e = sym (length-matches_from 0 s rules) ∙ ap length e
result-Describes rules s ((i, r) ∷ []) e =
    let (n, p, g, q) = In-matches_from 0 s rules i r (rw e (inl refl)) in
    (
      (let p' : i ≡ n = omega arith in rw p' g),
      q,
      sym (length-matches_from 0 s rules) ∙ ap length e,
    )
result-Describes rules s (a ∷ b ∷ rest) e =
    (ap length (sym e) ∙ length-matches_from 0 s rules, omega arith)

-- `matchFirewallRule` returns a rule only if it stands in the list at that position, the selector
-- selects it, and no other rule of the list; it reports no match only if the selector selects none,
-- and an ambiguous one only with the number of selected rules, which is two or more.
pub match_firewall_rule-Describes :
    (rules : List HetznerFirewallRule) (s : RuleSelector)
    → Describes rules s (match_firewall_rule rules s)
unfolding match_firewall_rule
match_firewall_rule-Describes rules s = result-Describes rules s (matches_from 0 s rules) refl
