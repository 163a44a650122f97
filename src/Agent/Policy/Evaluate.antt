-- ===== src/Agent/Policy/Evaluate.antt =====
-- internal/agent/policy.go: PolicyDecision, matchTool and FilePolicy.Evaluate.
use gobot.Prelude.{
  ◌≡◌, ◌≢◌, refl, ap, sym, ◌∙◌, append-nil, ◌⊎◌, inl, inr, Bool, true, List, [], ◌∷◌, ◌++◌, String,
  str_eq, eq_iff, arith, Bool-cases, if◌then◌else◌,
}
use gobot.Prelude.Int.{ℤ}
use gobot.Agent.Policy.Validate.{PolicyRule}

-- A PolicyDecision is an int: `other_decision` is any value beside the three constants.
pub data PolicyDecision : Type 0 where
  policy_allow policy_deny policy_require_hitl : PolicyDecision
  other_decision : ℤ → PolicyDecision

unfoldable pub match_tool : String → String → Bool
match_tool pattern tool_name = if str_eq pattern "*" then true else str_eq pattern tool_name

-- The inner switch: a decision that is none of the three denies.
unfoldable pub rule_decision : String → PolicyDecision
rule_decision d =
    if str_eq d "deny"
    then policy_deny
    else if str_eq d "require_hitl"
    then policy_require_hitl
    else if str_eq d "allow"
    then policy_allow
    else policy_deny

unfoldable pub evaluate : List PolicyRule → String → PolicyDecision
unfolding match_tool rule_decision
evaluate [] tool_name = policy_allow
evaluate (rule ∷ rules) tool_name =
    let rest = evaluate rules tool_name in
    if match_tool rule.tool tool_name then rule_decision rule.decision else rest

-- No rule of the list is for the tool.
abbrev pub NoMatch : List PolicyRule → String → Type 0
NoMatch [] tool_name = Unit {0}
NoMatch (rule ∷ rules) tool_name =
    (rule.tool ≢ "*") × (rule.tool ≢ tool_name) × NoMatch rules tool_name

evaluate-NoMatch :
    (before after : List PolicyRule) (tool_name : String)
    → NoMatch before tool_name
    → evaluate (before ++ after) tool_name ≡ evaluate after tool_name
unfolding evaluate match_tool
evaluate-NoMatch [] after tool_name h = refl
evaluate-NoMatch (rule ∷ before) after tool_name (s, t, h) = ground (
  arith,
  evaluate-NoMatch before after tool_name h,
  eq_iff rule.tool "*",
  eq_iff rule.tool tool_name,
)

-- Without a rule for the tool, a file policy allows it; else the first rule for it decides, that
-- is, the rules after it have no effect.
pub evaluate-first :
    (before : List PolicyRule) (rule : PolicyRule) (after : List PolicyRule) (tool_name : String)
    → NoMatch before tool_name
    → (evaluate before tool_name ≡ policy_allow)
      × ((rule.tool ≡ "*") ⊎ (rule.tool ≡ tool_name)
          → evaluate (before ++ rule ∷ after) tool_name ≡ rule_decision rule.decision)
unfolding evaluate match_tool
evaluate-first before rule after tool_name h = (
  ap (λ r. evaluate r tool_name) (sym (append-nil before)) ∙ evaluate-NoMatch before [] tool_name h,
  λ matches. evaluate-NoMatch before (rule ∷ after) tool_name h ∙ elim matches [
    | inl star ↦ ground (arith, eq_iff rule.tool "*")
    | inr same ↦ ground (arith, eq_iff rule.tool tool_name)
  ],
)

-- Either no rule is for the tool, or the list has a first rule for it.
abbrev FirstMatch : List PolicyRule → String → Type 0
FirstMatch rules tool_name =
    NoMatch rules tool_name
    ⊎ ((before : List PolicyRule) × (rule : PolicyRule) × (after : List PolicyRule) × (rules
          ≡ before ++ rule ∷ after)
        × NoMatch before tool_name
        × ((rule.tool ≡ "*") ⊎ (rule.tool ≡ tool_name)))

first-match : (rules : List PolicyRule) (tool_name : String) → FirstMatch rules tool_name
first-match [] tool_name = inl tt
first-match (rule ∷ rules) tool_name = elim (Bool-cases (str_eq rule.tool "*")) [
  | inl star ↦ inr ([], rule, rules, refl, tt, inl (ground (arith, eq_iff rule.tool "*")))
  | inr other ↦ elim (Bool-cases (str_eq rule.tool tool_name)) [
    | inl same ↦ inr ([], rule, rules, refl, tt, inr (ground (arith, eq_iff rule.tool tool_name)))
    | inr differs ↦
        let ne_star : rule.tool ≢ "*" = λ e. ground (arith, eq_iff rule.tool "*") in
        let ne_tool : rule.tool ≢ tool_name = λ e. ground (arith, eq_iff rule.tool tool_name) in
        elim (first-match rules tool_name) [
          | inl none_of ↦ inl (ne_star, ne_tool, none_of)
          | inr (before, r, after, e, nm, m) ↦
              inr (rule ∷ before, r, after, ap (λ l. rule ∷ l) e, (ne_star, ne_tool, nm), m)
        ]
  ]
]

-- A file policy allows a tool only if no rule is for it, or the first rule for it says "allow".
pub evaluate-allow :
    (rules : List PolicyRule) (tool_name : String)
    → evaluate rules tool_name ≡ policy_allow
    → NoMatch rules tool_name
      ⊎ ((before : List PolicyRule) × (rule : PolicyRule) × (after : List PolicyRule) × (rules
            ≡ before ++ rule ∷ after)
          × NoMatch before tool_name
          × ((rule.tool ≡ "*") ⊎ (rule.tool ≡ tool_name))
          × (rule.decision ≡ "allow"))
unfolding evaluate match_tool rule_decision
evaluate-allow rules tool_name h = elim (first-match rules tool_name) [
  | inl none_of ↦ inl none_of
  | inr (before, rule, after, e, nm, m) ↦
      let decided = (evaluate-first before rule after tool_name nm).1 m in
      let allowed : rule_decision rule.decision ≡ policy_allow =
        sym decided ∙ ap (λ r. evaluate r tool_name) (sym e) ∙ h in
      inr (before, rule, after, e, nm, m, ground (arith, eq_iff rule.decision "allow"))
]
