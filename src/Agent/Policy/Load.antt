-- ===== src/Agent/Policy/Load.antt =====
-- internal/agent/policy.go: what NewFilePolicy accepts.
use gobot.Prelude.{
  ℕ, suc, ◌≡◌, ◌≢◌, subst, inl, inr, Bool, true, false, ◌||◌, Option, none, some, List, [], ◌∷◌,
  String, str_eq, eq_iff, arith, Bool-cases, Option-cases, if◌then◌else◌,
}
use gobot.Agent.Policy.Validate.{
  PolicyRule, NodeKind, Node, node, Nodes, nil, cons, validate_policy_document,
  validate_document_content, validate_root, validate_rules, validate_policy_rule, validate_fields,
  validate_policy_value, is_decision,
}
use gobot.Agent.Policy.Hook.{file_policy, new_file_policy}

abbrev pub value_of : Node → String
value_of (node kind tag value content) = value

-- The value under a key of a mapping.
unfoldable pub field : String → Nodes → Option String
field name nil = none
field name (cons key nil) = none
field name (cons key (cons value rest)) =
    let next = field name rest in if str_eq (value_of key) name then some (value_of value) else next

abbrev pub content_of : Node → Nodes
content_of (node kind tag value content) = content

-- The typed decoding of a sequence of mappings: one rule for each, with the values of its keys.
abbrev pub Decoded : Nodes → List PolicyRule → Type 0
Decoded nil [] = Unit {0}
Decoded nil (r ∷ rs) = ⊥
Decoded (cons x xs) [] = ⊥
Decoded (cons x xs) (r ∷ rs) =
    (field "tool" (content_of x) ≡ some r.tool)
    × (field "decision" (content_of x) ≡ some r.decision)
    × Decoded xs rs

-- The nodes under `rules`.
abbrev pub rule_nodes : Option Node → Nodes
rule_nodes
      (some (node k t v (cons (node rk rt rv (cons key (cons (node sk st sv rules) rest))) more))) =
    rules
rule_nodes doc = nil

-- Every rule has one of the three decisions and a tool that is not blank.
abbrev pub RulesValid : (String → String) → List PolicyRule → Type 0
RulesValid trim_space [] = Unit {0}
RulesValid trim_space (r ∷ rs) =
    (is_decision r.decision ≡ true) × (trim_space r.tool ≢ "") × RulesValid trim_space rs

module _ (trim_space : String → String) where
  value-decision :
      (name : String) (value : Node)
      → validate_policy_value trim_space name value ≡ none
      → str_eq name "decision" ≡ true
      → is_decision (value_of value) ≡ true
  unfolding validate_policy_value
  value-decision name (node kind tag v content) h e = ground arith

  value-tool :
      (name : String) (value : Node)
      → validate_policy_value trim_space name value ≡ none
      → str_eq name "tool" ≡ true
      → trim_space (value_of value) ≢ ""
  unfolding validate_policy_value
  value-tool name (node kind tag v content) h e blank = ground (arith, eq_iff (trim_space v) "")

  -- An accepted pair: its value is accepted under its name, and so are the pairs after it.
  fields-step :
      (seen_tool seen_decision : Bool) (kind : NodeKind) (tag name : String) (content : Nodes)
      → (value : Node) (rest : Nodes)
      → validate_fields trim_space seen_tool seen_decision
          (cons (node kind tag name content) (cons value rest))
        ≡ none
      → (validate_policy_value trim_space name value ≡ none)
        × (validate_fields trim_space
              (seen_tool || str_eq name "tool")
              (seen_decision || str_eq name "decision")
              rest
            ≡ none)
  unfolding validate_fields
  fields-step st sd kind tag name content value rest h =
      elim (Option-cases (validate_policy_value trim_space name value)) [
        | inl fine ↦ (fine, ground arith)
        | inr (err, bad) ↦ ground arith
      ]

  fields-decision :
      (seen_tool seen_decision : Bool) (content : Nodes) (d : String)
      → validate_fields trim_space seen_tool seen_decision content ≡ none
      → field "decision" content ≡ some d
      → is_decision d ≡ true
  unfolding field
  fields-decision st sd nil d h f = cc
  fields-decision st sd (cons key nil) d h f = cc
  fields-decision st sd (cons (node kind tag name content) (cons value rest)) d h f =
      let (fine, others) = fields-step st sd kind tag name content value rest h in
      elim (Bool-cases (str_eq name "decision")) [
        | inl here ↦
            let found : value_of value ≡ d = ground arith in
            subst (λ v. is_decision v ≡ true) found (value-decision name value fine here)
        | inr away ↦
            fields-decision (st || str_eq name "tool") (sd || str_eq name "decision") rest d others
              (ground arith)
      ]

  fields-tool :
      (seen_tool seen_decision : Bool) (content : Nodes) (t : String)
      → validate_fields trim_space seen_tool seen_decision content ≡ none
      → field "tool" content ≡ some t
      → trim_space t ≢ ""
  unfolding field
  fields-tool st sd nil t h f = cc
  fields-tool st sd (cons key nil) t h f = cc
  fields-tool st sd (cons (node kind tag name content) (cons value rest)) t h f =
      let (fine, others) = fields-step st sd kind tag name content value rest h in
      elim (Bool-cases (str_eq name "tool")) [
        | inl here ↦
            let found : value_of value ≡ t = ground arith in
            subst (λ v. trim_space v ≢ "") found (value-tool name value fine here)
        | inr away ↦
            fields-tool (st || str_eq name "tool") (sd || str_eq name "decision") rest t others
              (ground arith)
      ]

  rule-valid :
      (rule : Node) (t d : String)
      → validate_policy_rule trim_space rule ≡ none
      → field "tool" (content_of rule) ≡ some t
      → field "decision" (content_of rule) ≡ some d
      → (is_decision d ≡ true) × (trim_space t ≢ "")
  unfolding validate_policy_rule
  rule-valid (node kind tag v content) t d h ft fd =
      let fine : validate_fields trim_space false false content ≡ none = ground arith in
      (fields-decision false false content d fine fd, fields-tool false false content t fine ft)

  rules-valid :
      (i : ℕ) (nodes : Nodes) (rules : List PolicyRule)
      → validate_rules trim_space i nodes ≡ none
      → Decoded nodes rules
      → RulesValid trim_space rules
  unfolding validate_rules
  rules-valid i nil [] h d = tt
  rules-valid i nil (r ∷ rs) h d = absurd d
  rules-valid i (cons x xs) [] h d = absurd d
  rules-valid i (cons x xs) (r ∷ rs) h (ft, fd, rest) =
      elim (Option-cases (validate_policy_rule trim_space x)) [
        | inl fine ↦
            let (decision, tool) = rule-valid x r.tool r.decision fine ft fd in
            (decision, tool, rules-valid (suc i) xs rs (ground arith) rest)
        | inr (err, bad) ↦ ground arith
      ]

  document-valid :
      (doc : Option Node) (single : Bool) (rules : List PolicyRule)
      → validate_policy_document trim_space doc single ≡ none
      → Decoded (rule_nodes doc) rules
      → RulesValid trim_space rules
  unfolding validate_policy_document validate_document_content validate_root
  document-valid none single rules h d = cc
  document-valid (some (node k t v nil)) single rules h d = ground arith
  document-valid (some (node k t v (cons root (cons more rest)))) single rules h d = ground arith
  document-valid (some (node k t v (cons (node rk rt rv nil) nil))) single rules h d = ground arith
  document-valid (some (node k t v (cons (node rk rt rv (cons key nil)) nil))) single rules h d =
      ground arith
  document-valid
        (some (
          node k t v
            (cons (node rk rt rv (cons (node kk kt kv kc) (cons (node sk st sv nodes) nil))) nil)))
        single rules h d =
      rules-valid 0 nodes rules (ground arith) d
  document-valid
        (some (node k t v (cons (node rk rt rv (cons key (cons items (cons more rest)))) nil)))
        single rules h d =
      ground arith

-- A policy file that loads has only rules with one of the three decisions and with a tool that is
-- not blank, where the typed decoder gives
-- for each rule of a validated document the values of its keys.
pub new_file_policy-RulesValid :
    {Data : Type 0} (read_file : String → Option Data) (first_document : Data → Option Node)
    → (single_document : Data → Bool) → (decode_rules : Data → Option (List PolicyRule))
    → (trim_space : String → String)
    → ((bytes : Data) (rules : List PolicyRule)
        → validate_policy_document trim_space (first_document bytes) (single_document bytes) ≡ none
        → decode_rules bytes ≡ some rules
        → Decoded (rule_nodes (first_document bytes)) rules)
    → (path : String) (rules : List PolicyRule)
    → new_file_policy read_file first_document single_document decode_rules trim_space path
      ≡ some (file_policy rules)
    → RulesValid trim_space rules
unfolding new_file_policy
new_file_policy-RulesValid read_file first_document single_document decode_rules trim_space decodes
      path rules h =
    elim (Option-cases (read_file path)) [
      | inl missing ↦ ground arith
      | inr (bytes, found) ↦
          elim (Option-cases
            (validate_policy_document trim_space (first_document bytes) (single_document bytes))) [
              | inr (err, bad) ↦ ground arith
              | inl fine ↦ elim (Option-cases (decode_rules bytes)) [
                | inl broken ↦ ground arith
                | inr (rs, decoded) ↦
                    let same : rs ≡ rules = ground arith in
                    subst (RulesValid trim_space) same (
                      document-valid trim_space (first_document bytes) (single_document bytes) rs
                        fine (decodes bytes rs fine decoded))
              ]
            ]
    ]
