-- ===== src/Tests/Policy.antt =====
-- Runs of internal/agent/policy.go.
use gobot.Prelude.{
  ◌≡◌, refl, subst, ◌⊎◌, true, none, some, List, [], ◌∷◌, String, str_eq, if◌then◌else◌,
}
use gobot.Prelude.Int.{ℤ, pos}
use gobot.Agent.Policy.Validate.{
  PolicyRule, Node, node, nil, cons, document_node, mapping_node, scalar_node, sequence_node,
  string_tag, validate_policy_document,
}
use gobot.Agent.Policy.Evaluate.{
  PolicyDecision, policy_allow, policy_require_hitl, other_decision, evaluate,
}
use gobot.Agent.Policy.Hook.{
  PolicyContext, file_policy, other_policy, proceed, new_file_policy, evaluate_policy,
  pre_tool_hook, Approval, answered, pre_tool_hook-proceed,
}
use gobot.Agent.Policy.Load.{field, Decoded, rule_nodes, RulesValid, new_file_policy-RulesValid}

abbrev rule : String → String → PolicyRule
rule tool decision = record { tool = tool; decision = decision }

abbrev rules : List PolicyRule
rules = rule "shell" "require_hitl" ∷ rule "read" "allow" ∷ rule "*" "deny" ∷ []

-- A manager that approves for everybody.
abbrev approves : PolicyContext → Approval
approves pc = answered true

abbrev shell : PolicyContext
shell = record { tool_name = "shell"; args = "{}"; session_key = "telegram:1" }

pre_tool_hook-proceed_example :
    (evaluate_policy (file_policy rules) shell ≡ policy_allow)
    ⊎ ((evaluate_policy (file_policy rules) shell ≡ policy_require_hitl)
        × (request_approval : PolicyContext → Approval) × (some approves ≡ some request_approval)
        × (request_approval shell ≡ answered true))
    ⊎ ((decide : PolicyContext → PolicyDecision) × (n : ℤ) × (file_policy rules
          ≡ other_policy decide)
        × (decide shell ≡ other_decision n))
unfolding pre_tool_hook evaluate
pre_tool_hook-proceed_example =
    pre_tool_hook-proceed (file_policy rules) (some approves) "telegram:1" "shell" "{}" refl

-- A policy from elsewhere with a decision of its own lets the tool run.
pre_tool_hook-unknown :
    pre_tool_hook (other_policy (λ pc. other_decision (pos 7))) none "telegram:1" "shell" "{}"
    ≡ proceed
unfolding pre_tool_hook
pre_tool_hook-unknown = refl

-- A policy file with one rule, as the decoders give it.
abbrev scalar : String → Node
scalar value = node scalar_node string_tag value nil

abbrev document : Node
document = node document_node "" "" (
    cons
      (node mapping_node "!!map" "" (
        cons (scalar "rules") (
          cons
            (node sequence_node "!!seq" "" (
              cons
                (node mapping_node "!!map" "" (
                  cons (scalar "tool")
                    (cons (scalar "shell") (cons (scalar "decision") (cons (scalar "deny") nil)))))
                nil))
            nil)))
      nil)

abbrev trim : String → String
trim s = if str_eq s " " then "" else s

abbrev one_rule : List PolicyRule
one_rule = rule "shell" "deny" ∷ []

decodes_one :
    (bytes : String) (rs : List PolicyRule)
    → some one_rule ≡ some rs
    → Decoded (rule_nodes (some document)) rs
unfolding field
decodes_one bytes rs e =
    let same : one_rule ≡ rs = cc in
    subst (Decoded (rule_nodes (some document))) same (refl, refl, tt)

new_file_policy-RulesValid_example : RulesValid trim one_rule
unfolding new_file_policy validate_policy_document
new_file_policy-RulesValid_example =
    new_file_policy-RulesValid (λ path. some "bytes") (λ bytes. some document) (λ bytes. true)
      (λ bytes. some one_rule) trim (λ bytes rs fine e. decodes_one bytes rs e) "policy.yaml"
      one_rule refl
