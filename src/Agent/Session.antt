-- ===== src/Agent/Session.antt =====
-- internal/agent/session_history.go and agent.go: the history of a session around one turn. The
-- checkpoint store is an interface; the language model, the clock, the texts of package strings and
-- floating-point products are parameters; the logs of package slog are left out.
pub mod History
pub mod Turn
pub mod Budget
pub mod Laws
pub mod Durable
use Prim.Native.String.{◌++◌}
use gobot.Prelude.{ℕ, Bool, Option, none, some, List, [], ◌∷◌, String}
use gobot.Prelude.Int.{ℤ}
use gobot.Prelude.Results.{Err, Result}
use gobot.Agent.Message.{Message, Role, content_string}
use gobot.Agent.Compaction.{Pruning}
use gobot.Context.Checkpoints.{ThreadSnapshot}

-- The interface CheckpointStore, over the states of a store.
pub record CheckpointStore (S : Type 0) : Type 0 where
  pub load_latest : String → S → Result (Option ThreadSnapshot) × S
  pub save_snapshot : String → ℤ → List Message → S → Result Bool × S
  pub create_thread : String → String → S → Result (Unit {0}) × S
  pub update_session_tokens : String → ℤ → Option ℤ → S → Result (Unit {0}) × S
  pub get_session_tokens : String → S → Result (ℤ × Option ℤ) × S

-- The settings of SessionManager. `summarization_model` and `strategy` are those of the compaction
-- policy.
pub record SessionManager : Type 0 where
  pub model : String
  pub memory_window : ℤ
  pub storage_root : String
  pub has_consolidator : Bool
  pub has_logger : Bool
  pub pruning_policy : Pruning
  pub strategy : String
  pub summarization_enabled : Bool
  pub summarization_model : String
  pub token_budget : ℤ
  pub summary_turns : ℤ

-- What the code calls: the runner's two methods, time, strings, and the two rounded products
-- (`threshold` of the memory window and `scaled` of a number of words).
pub record Env : Type 0 where
  pub run : List Message → Result (String × List Message)
  pub run_text : String → String → Result String
  pub now : ℤ
  pub now_text : String
  pub parse_duration : String → Option ℤ
  pub parse_rfc3339 : String → Option ℤ
  pub trim_space : String → String
  pub to_lower : String → String
  pub byte_length : String → ℕ
  pub words : String → ℕ
  pub threshold : ℤ → ℤ
  pub scaled : ℕ → ℤ

-- What a turn does beside the store: it hands dropped content to the consolidator, appends to the
-- journal and writes the session log.
pub data Effect : Type 0 where
  consolidate_async : String → String → Effect
  journal_entry : String → ℕ → ℕ → Effect
  session_log : String → ℤ → List Message → Effect

abbrev pub role_text : Role → String
role_text Role.system = "system"
role_text Role.user = "user"
role_text Role.assistant = "assistant"
role_text Role.model = "model"
role_text Role.tool = "tool"
role_text (Role.other s) = s

-- `fmt.Fprintf(&sb, "%s: %s\n", msg.Role, msg.Content.String())`.
abbrev pub append_line : String → Message → String
append_line sb m = sb ++ role_text m.role ++ ": " ++ content_string m.content ++ "\n"

abbrev pub text_message : Role → String → String → Message
text_message role text created_at = record {
  role = role;
  content = some (record { str = some text; items = [] });
  name = none;
  tool_call_id = none;
  tool_calls = [];
  reasoning_content = none;
  thinking_blocks = [];
  created_at = created_at;
}

abbrev pub summarization_prompt : String
summarization_prompt =
    "You are a context summarization assistant. Condense the provided\nconversation history into a concise summary. Preserve:\n1. Key decisions made and agreed upon.\n2. Active action items and their status.\n3. User preferences and stylistic mandates.\n4. Current task state and progress.\n\nFormat as a clear, bulleted list. If an existing <context_summary> block is provided,\nintegrate it hierarchically (do not discard prior summaries).\n\nConversation history:\n"

abbrev pub stateless_warning : String
stateless_warning =
    "⚠\u{fe0f} Warning: session history could not be initialized. This conversation will not be persisted.\n\n"

abbrev pub checkpoint_save_warning : String
checkpoint_save_warning =
    "Warning: This turn could not be saved for future conversation context.\n\n"
