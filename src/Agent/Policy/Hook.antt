-- ===== src/Agent/Policy/Hook.antt =====
-- internal/agent/policy.go: NewFilePolicy, Policy.Evaluate and PolicyHook.PreToolHook. The file
-- system, the decoders of gopkg.in/yaml.v3 and HITLManager.RequestApproval are parameters.
use gobot.Prelude.{
  ◌≡◌, ◌≢◌, refl, ap, sym, ◌∙◌, ◌⊎◌, inl, [], ◌∷◌, inr, Bool, true, false, Option, none, some, List,
  String, str_eq, arith, Option-cases, if◌then◌else◌,
}
use gobot.Prelude.Int.{ℤ}
use gobot.Agent.Policy.Validate.{PolicyRule, Node, validate_policy_document}
use gobot.Agent.Policy.Evaluate.{
  PolicyDecision, policy_allow, policy_deny, policy_require_hitl, other_decision, rule_decision,
  evaluate,
}

-- `args` is the encoded text of the arguments. The hook leaves UserID at 0.
pub record PolicyContext : Type 0 where
  pub tool_name : String
  pub args : String
  pub session_key : String

-- The interface Policy: the package's two implementations, and any other one by its Evaluate.
pub data Policy : Type 0 where
  allow_all_policy : Policy
  file_policy : List PolicyRule → Policy
  other_policy : (PolicyContext → PolicyDecision) → Policy

unfoldable pub evaluate_policy : Policy → PolicyContext → PolicyDecision
evaluate_policy allow_all_policy pc = policy_allow
evaluate_policy (file_policy rules) pc = evaluate rules pc.tool_name
evaluate_policy (other_policy decide) pc = decide pc

-- NewFilePolicy: no result where a step gives an error.
module _ {Data : Type 0} (read_file : String → Option Data) (first_document : Data → Option Node)
    (single_document : Data → Bool) (decode_rules : Data → Option (List PolicyRule))
    (trim_space : String → String) where
  unfoldable pub new_file_policy : String → Option Policy
  new_file_policy path = if str_eq path "" then some allow_all_policy else elim (read_file path) [
    | none ↦ none
    | some bytes ↦
        elim (validate_policy_document trim_space (first_document bytes) (single_document bytes)) [
          | some error ↦ none
          | none ↦ elim (decode_rules bytes) [ none ↦ none | some rules ↦ some (file_policy rules) ]
        ]
  ]

-- The result of a pre-tool hook: `proceed` is ("", nil).
pub data Verdict : Type 0 where
  proceed denied_by_policy denied_not_granted denied_no_hitl : Verdict
  approval_failed : String → Verdict

pub data Approval : Type 0 where
  answered : Bool → Approval
  failed : String → Approval

-- `hitl` is RequestApproval on the session, the tool and its arguments, where there is a manager.
unfoldable pub pre_tool_hook :
    Policy → Option (PolicyContext → Approval) → String → String → String → Verdict
unfolding evaluate_policy
pre_tool_hook policy hitl session_key tool_name args =
    let pc : PolicyContext = record {
      tool_name = tool_name;
      args = args;
      session_key = session_key;
    } in
    elim (evaluate_policy policy pc) [
      | policy_deny ↦ denied_by_policy
      | policy_require_hitl ↦ elim hitl [
        | none ↦ denied_no_hitl
        | some request_approval ↦ elim (request_approval pc) [
          | failed err ↦ approval_failed err
          | answered approved ↦ if approved then proceed else denied_not_granted
        ]
      ]
      | policy_allow ↦ proceed
      | other_decision n ↦ proceed
    ]

decision-cases :
    (d : PolicyDecision)
    → (d ≡ policy_allow)
      ⊎ (d ≡ policy_deny)
      ⊎ (d ≡ policy_require_hitl)
      ⊎ ((n : ℤ) × (d ≡ other_decision n))
decision-cases policy_allow = inl refl
decision-cases policy_deny = inr (inl refl)
decision-cases policy_require_hitl = inr (inr (inl refl))
decision-cases (other_decision n) = inr (inr (inr (n, refl)))

approval-cases :
    (a : Approval)
    → (a ≡ answered true) ⊎ (a ≡ answered false) ⊎ ((err : String) × (a ≡ failed err))
approval-cases (answered true) = inl refl
approval-cases (answered false) = inr (inl refl)
approval-cases (failed err) = inr (inr (err, refl))

-- A decision of a policy file is one of the three constants.
evaluate-known :
    (rules : List PolicyRule) (tool_name : String) (n : ℤ)
    → evaluate rules tool_name ≢ other_decision n
unfolding evaluate rule_decision
evaluate-known [] tool_name n e = absurd (ground arith)
evaluate-known (rule ∷ rules) tool_name n e = ground (arith, evaluate-known rules tool_name n)

-- Only a policy from outside the package can give another decision.
other-foreign :
    (policy : Policy) (pc : PolicyContext) (n : ℤ)
    → evaluate_policy policy pc ≡ other_decision n
    → (decide : PolicyContext → PolicyDecision) × (policy ≡ other_policy decide)
unfolding evaluate_policy
other-foreign allow_all_policy pc n e = absurd (ground arith)
other-foreign (file_policy rules) pc n e = absurd (evaluate-known rules pc.tool_name n e)
other-foreign (other_policy decide) pc n e = (decide, refl)

-- The hook lets a tool run only if the policy allows it, or requires an approval that a
-- configured manager is asked for and grants, or gives a decision that is none of the three, which
-- neither AllowAllPolicy nor a policy file does.
pub pre_tool_hook-proceed :
    (policy : Policy)
    → (hitl : Option (PolicyContext → Approval)) → (session_key tool_name args : String)
    → pre_tool_hook policy hitl session_key tool_name args ≡ proceed
    → let pc : PolicyContext = record {
      tool_name = tool_name;
      args = args;
      session_key = session_key;
    } in
      (evaluate_policy policy pc ≡ policy_allow)
      ⊎ ((evaluate_policy policy pc ≡ policy_require_hitl)
          × (request_approval : PolicyContext → Approval) × (hitl ≡ some request_approval)
          × (request_approval pc ≡ answered true))
      ⊎ ((decide : PolicyContext → PolicyDecision) × (n : ℤ) × (policy ≡ other_policy decide)
          × (decide pc ≡ other_decision n))
unfolding pre_tool_hook evaluate_policy
pre_tool_hook-proceed policy hitl session_key tool_name args h =
    let pc : PolicyContext = record {
      tool_name = tool_name;
      args = args;
      session_key = session_key;
    } in
    elim (decision-cases (evaluate_policy policy pc)) [
      | inl allows ↦ inl allows
      | inr (inl denies) ↦ ground arith
      | inr (inr (inr (n, other))) ↦
          let (decide, same) = other-foreign policy pc n other in
          inr (inr (decide, n, same, ap (λ p. evaluate_policy p pc) (sym same) ∙ other))
      | inr (inr (inl asks)) ↦ elim (Option-cases hitl) [
        | inl missing ↦ ground arith
        | inr (request_approval, found) ↦ elim (approval-cases (request_approval pc)) [
          | inl granted ↦ inr (inl (asks, request_approval, found, granted))
          | inr (inl refused) ↦ ground arith
          | inr (inr (err, fails)) ↦ ground arith
        ]
      ]
    ]
