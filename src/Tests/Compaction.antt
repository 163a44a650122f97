-- ===== src/Tests/Compaction.antt =====
-- Runs of internal/agent/compaction.go: compaction and pruning.
use gobot.Prelude.{
  ◌≡◌, false, replicate, refl, eq_iff, inl, inr, Option, none, some, List, [], ◌∷◌, String, arith,
  In, ◌++◌, str_eq, if◌then◌else◌,
}
use gobot.Prelude.Int.{ℤ, pos, ◌-ℤ◌}
use gobot.Agent.Message.{Message, Role, user, assistant, tool, ToolCall}
use gobot.Agent.Compaction.{Pruning, compact_messages, apply_keep_last_assistants}
use gobot.Agent.Pruning.{prune_messages, prune_marks, parse_ttl}
use mathlib.Core.List.{Perm}
use gobot.Agent.Compaction.Pairing.{compact-responses, compact-calls, CallIn}
use gobot.Agent.Pruning.Laws.{StartsWithoutAssistant}
use gobot.Agent.Pruning.Exact.{AllAssistants, Survivors, prune-Survivors}

abbrev message : Role → Option String → List ToolCall → String → Message
message role answer calls created = record {
  role = role;
  content = none;
  name = none;
  tool_call_id = answer;
  tool_calls = calls;
  reasoning_content = none;
  thinking_blocks = [];
  created_at = created;
}

abbrev call : String → ToolCall
call id = record { id = id; name = "search"; args = "{}"; thought_signature = "" }

abbrev asks : Message
asks = message user none [] ""

abbrev calls_a : Message
calls_a = message assistant none (call "a" ∷ []) ""

abbrev answers_a : Message
answers_a = message tool (some "a") [] ""

abbrev history : List Message
history = asks ∷ calls_a ∷ answers_a ∷ asks ∷ []

abbrev plain : Pruning
plain = record { ttl = ""; keep_last_assistants = pos 0 }

compact-responses_example : In answers_a (compact_messages history (pos 3) (pos 2) plain).messages
unfolding compact_messages
compact-responses_example =
    compact-responses history (pos 3) (pos 2) plain calls_a answers_a "a"
      (λ e. ground (arith, eq_iff "a" "")) (inl refl) refl (inr (inr (inl refl))) refl

compact-calls_example : CallIn "a" (compact_messages history (pos 3) (pos 2) plain).messages
unfolding compact_messages
compact-calls_example =
    compact-calls history (pos 3) (pos 2) plain answers_a "a" (λ e. ground (arith, eq_iff "a" ""))
      (inr (inl refl)) refl (calls_a, inr (inl refl), refl)

-- A clock whose texts are "1h", "now" and "old".
abbrev an_hour : String → Option ℤ
an_hour s = if str_eq s "1h" then some (pos 3600) else none

abbrev read_time : String → Option ℤ
read_time s =
    if str_eq s "now" then some (pos 10000) else if str_eq s "old" then some (pos 100) else none

-- The last assistant turn is kept with the user message before it.
abbrev hourly : Pruning
hourly = record { ttl = "1h"; keep_last_assistants = pos 1 }

abbrev replies_old : Message
replies_old = message assistant none [] "old"

abbrev asks_old : Message
asks_old = message user none [] "old"

abbrev replies_now : Message
replies_now = message assistant none [] "now"

-- A leading turn, an old pair outside the safety net and one inside it.
abbrev aging : List Message
aging = replies_now ∷ asks_old ∷ replies_old ∷ asks_old ∷ replies_old ∷ []

prune_messages-aging :
    prune_messages an_hour read_time aging hourly (pos 10001)
    ≡ (asks_old ∷ replies_old ∷ [], replies_now ∷ asks_old ∷ replies_old ∷ [])
unfolding prune_messages prune_marks parse_ttl apply_keep_last_assistants ◌-ℤ◌
prune_messages-aging = refl

prune-Survivors_example :
    let out = prune_messages an_hour read_time aging hourly (pos 10001) in
    let safe = apply_keep_last_assistants aging (replicate 5 false) (pos 1) in
    (survivors : List Message) × (lead : List Message) × Survivors read_time
      (pos 10001 -ℤ pos 3600)
      aging
      safe
      survivors
    × (survivors ≡ lead ++ out.0)
    × AllAssistants lead
    × StartsWithoutAssistant out.0
    × Perm (out.0 ++ out.1) aging
unfolding parse_ttl
prune-Survivors_example =
    prune-Survivors an_hour read_time aging hourly (pos 10001) (pos 3600) refl (omega arith)
