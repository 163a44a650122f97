-- ===== src/Agent/Message.antt =====
-- internal/context/schema.go: one entry of the conversation history.
use gobot.Prelude.{Bool, true, false, Option, none, some, List, [], ◌∷◌, String}
use Prim.Native.String.{◌++◌}

pub record TextContent : Type 0 where
  pub text : String

pub record ThinkingContent : Type 0 where
  pub text : String

pub record ImageContent : Type 0 where
  pub url : String

pub record ToolCallContent : Type 0 where
  pub id : String
  pub name : String
  pub arguments : String

-- Exactly one of the four is set after decoding.
pub record ContentItem : Type 0 where
  pub text : Option TextContent
  pub thinking : Option ThinkingContent
  pub image : Option ImageContent
  pub tool : Option ToolCallContent

-- `MessageRole` is a string: `other` is any value beside the five constants.
pub data Role : Type 0 where
  system user assistant model tool : Role
  other : String → Role

pub record MessageContent : Type 0 where
  pub str : Option String
  pub items : List ContentItem

-- `args` and `thought_signature` are carried along and never read: their encoded text.
pub record ToolCall : Type 0 where
  pub id : String
  pub name : String
  pub args : String
  pub thought_signature : String

pub record Message : Type 0 where
  pub role : Role
  pub content : Option MessageContent
  pub name : Option String
  pub tool_call_id : Option String
  pub tool_calls : List ToolCall
  pub reasoning_content : Option String
  pub thinking_blocks : List String
  pub created_at : String

-- The text items of a content list, joined.
pub join_items : List ContentItem → String
join_items [] = ""
join_items (item ∷ items) = elim item.text [
  | none ↦ join_items items
  | some t ↦ t.text ++ join_items items
]

-- `(*MessageContent).String`, where `none` is the nil pointer.
unfoldable pub content_string : Option MessageContent → String
unfolding join_items
content_string none = ""
content_string (some c) = elim c.str [ none ↦ join_items c.items | some s ↦ s ]

-- The role tests of the compaction code.
abbrev pub is_assistant : Role → Bool
is_assistant assistant = true
is_assistant model = true
is_assistant _ = false

abbrev pub is_user : Role → Bool
is_user user = true
is_user _ = false

abbrev pub is_tool : Role → Bool
is_tool tool = true
is_tool _ = false
