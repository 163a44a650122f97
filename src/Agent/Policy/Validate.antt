-- ===== src/Agent/Policy/Validate.antt =====
-- internal/agent/policy.go: policyRule and validatePolicyDocument. A YAML node is its kind, its
-- tag, its value and its content, and `strings.TrimSpace` is a parameter.
use gobot.Prelude.{
  ℕ, suc, Bool, true, false, not, ◌&&◌, ◌||◌, Option, none, some, String, str_eq, ◌==◌,
  if◌then◌else◌,
}

pub record PolicyRule : Type 0 where
  pub tool : String
  pub decision : String

pub data NodeKind : Type 0 where
  document_node sequence_node mapping_node scalar_node alias_node : NodeKind

mutual
  pub data Node : Type 0 where
    node : NodeKind → String → String → Nodes → Node

  pub data Nodes : Type 0 where
    nil : Nodes
    cons : Node → Nodes → Nodes

-- What is wrong with a rule, and where a document goes wrong.
pub data RuleError : Type 0 where
  only_tool_and_decision unique_fields tool_blank bad_decision : RuleError
  must_be_string : String → RuleError

pub data PolicyError : Type 0 where
  expected_document one_document mapping_root only_rules rules_not_sequence : PolicyError
  bad_rule : ℕ → RuleError → PolicyError

unfoldable pub content_length : Nodes → ℕ
content_length nil = 0
content_length (cons x xs) = suc (content_length xs)

unfoldable pub is_mapping : NodeKind → Bool
is_mapping mapping_node = true
is_mapping k = false

unfoldable pub is_sequence : NodeKind → Bool
is_sequence sequence_node = true
is_sequence k = false

unfoldable pub is_scalar : NodeKind → Bool
is_scalar scalar_node = true
is_scalar k = false

abbrev pub string_tag : String
string_tag = "!!str"

abbrev pub is_decision : String → Bool
is_decision v = str_eq v "allow" || str_eq v "deny" || str_eq v "require_hitl"

module _ (trim_space : String → String) where
  unfoldable pub validate_policy_value : String → Node → Option RuleError
  unfolding is_scalar
  validate_policy_value field (node kind tag value content) =
      if not (is_scalar kind && str_eq tag string_tag)
      then some (must_be_string field)
      else if str_eq field "tool" && str_eq (trim_space value) ""
      then some tool_blank
      else if str_eq field "decision" && not (is_decision value)
      then some bad_decision
      else none

  -- The loop over the key and value pairs; `seen_tool` and `seen_decision` are the map `seen`.
  -- The caller has checked that the length is 4, so that `Content[i+1]` exists.
  unfoldable pub validate_fields : Bool → Bool → Nodes → Option RuleError
  unfolding validate_policy_value
  validate_fields seen_tool seen_decision nil = none
  validate_fields seen_tool seen_decision (cons key nil) = some only_tool_and_decision
  validate_fields seen_tool seen_decision (cons (node kind tag name content) (cons value rest)) =
      let next =
        validate_fields (seen_tool || str_eq name "tool") (seen_decision || str_eq name "decision")
          rest in
      if not (str_eq tag string_tag)
        || not (str_eq name "tool" || str_eq name "decision")
        || (str_eq name "tool" && seen_tool)
        || (str_eq name "decision" && seen_decision)
      then some unique_fields
      else elim (validate_policy_value name value) [ some e ↦ some e | none ↦ next ]

  unfoldable pub validate_policy_rule : Node → Option RuleError
  unfolding validate_fields is_mapping content_length
  validate_policy_rule (node kind tag value content) =
      if not (is_mapping kind && content_length content == 4)
      then some only_tool_and_decision
      else validate_fields false false content

  -- The loop over the rules from the index `i`.
  unfoldable pub validate_rules : ℕ → Nodes → Option PolicyError
  unfolding validate_policy_rule
  validate_rules i nil = none
  validate_rules i (cons rule rest) =
      let next = validate_rules (suc i) rest in
      elim (validate_policy_rule rule) [ some e ↦ some (bad_rule i e) | none ↦ next ]

  -- The root is `rules:` with a sequence under it.
  unfoldable pub validate_root : Node → Option PolicyError
  unfolding validate_rules is_mapping is_sequence
  validate_root (node kind tag value (cons (node k t name c) (cons (node sk st sv rules) nil))) =
      if not (is_mapping kind && str_eq t string_tag && str_eq name "rules")
      then some only_rules
      else if is_sequence sk
      then validate_rules 0 rules
      else some rules_not_sequence
  validate_root (node kind tag value (cons key (cons items (cons more rest)))) = some only_rules
  validate_root (node kind tag value (cons key nil)) = some only_rules
  validate_root (node kind tag value nil) = some only_rules

  unfoldable pub validate_document_content : Nodes → Option PolicyError
  unfolding validate_root
  validate_document_content (cons root nil) = validate_root root
  validate_document_content (cons root (cons more rest)) = some mapping_root
  validate_document_content nil = some mapping_root

  -- `first` is what the decoder gives for the first document, `single` that it then meets the end.
  unfoldable pub validate_policy_document : Option Node → Bool → Option PolicyError
  unfolding validate_document_content
  validate_policy_document none single = some expected_document
  validate_policy_document (some (node kind tag value content)) single =
      if single then validate_document_content content else some one_document
