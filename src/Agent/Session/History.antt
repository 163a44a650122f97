-- ===== src/Agent/Session/History.antt =====
-- internal/agent/session_history.go: the history that a turn starts from, after the hooks, the
-- pruning, the summary and the compaction; and what of it goes to the consolidator.
use gobot.Prelude.{
  ℕ, ◌-◌, ◌*◌, ◌/◌, ◌==◌, leb, Bool, false, not, ◌&&◌, ◌||◌, Option, none, some, List, [], ◌∷◌,
  ◌++◌, String, str_eq, length, take, drop, if◌then◌else◌,
}
use gobot.Prelude.Int.{ℤ, pos, pos_part, leb_ℤ, ltb_ℤ}
use gobot.Prelude.Results.{Result, ok, err, wrapped}
use gobot.Agent.Message.{Message, Role, content_string}
use gobot.Agent.Compaction.{compact_messages}
use gobot.Agent.Pruning.{prune_messages}
use gobot.Agent.Session.{
  SessionManager, Env, Effect, consolidate_async, journal_entry, append_line, text_message,
  summarization_prompt,
}

-- internal/memory/memory.go, the set genericSkipPatterns.
abbrev pub generic_skip_patterns : List String
generic_skip_patterns =
    "yes" ∷ "no" ∷ "ok" ∷ "okay" ∷ "hello" ∷ "hi" ∷ "thanks" ∷ "thank you" ∷ "confirmed" ∷ "ok."
    ∷ "okay." ∷ "confirmed." ∷ "yes." ∷ "no." ∷ "thanks." ∷ "hello." ∷ "hi." ∷ []

abbrev pub is_member : String → List String → Bool
is_member s [] = false
is_member s (t ∷ ts) = str_eq s t || is_member s ts

unfoldable pub is_trivial_message_for_consolidation : Env → String → Bool
is_trivial_message_for_consolidation env content =
    is_member (env.to_lower (env.trim_space content)) generic_skip_patterns
    || str_eq content "[empty message]"

-- The trimmed text of the messages that are not trivial, sent unless it is empty.
unfoldable pub dropped_text : Env → List Message → String → String
unfolding is_trivial_message_for_consolidation
dropped_text env [] sb = sb
dropped_text env (m ∷ ms) sb = dropped_text env ms (
    if is_trivial_message_for_consolidation env (content_string m.content)
    then sb
    else append_line sb m)

unfoldable pub consolidate_dropped : Env → String → List Message → List Effect
unfolding dropped_text
consolidate_dropped env key dropped =
    let content = env.trim_space (dropped_text env dropped "") in
    if str_eq content "" then [] else consolidate_async key content ∷ []

-- The messages that runConsolidation walks over: those without a mark.
unfoldable pub unmarked : List Message → List Bool → List Message
unmarked [] keep = []
unmarked (m ∷ ms) [] = []
unmarked (m ∷ ms) (k ∷ keep) = let rest = unmarked ms keep in if not k then m ∷ rest else rest

unfoldable pub run_consolidation : Env → String → List Message → List Bool → List Effect
unfolding unmarked consolidate_dropped
run_consolidation env key messages keep = consolidate_dropped env key (unmarked messages keep)

-- `run` is RunPreHistory of the hooks, if there are hooks.
unfoldable pub run_pre_history_hooks :
    Option (List Message → List Message) → List Message → List Message
run_pre_history_hooks none messages = messages
run_pre_history_hooks (some run) messages =
    let after = run messages in
    if length after == 0 && not (length messages == 0) then messages else after

abbrev pub default_keep_context_messages : ℕ
default_keep_context_messages = 20

unfoldable pub get_summarization_keep_n : ℤ → ℕ
get_summarization_keep_n memory_window =
    if ltb_ℤ memory_window (pos (default_keep_context_messages * 2))
    then (let keep_n = pos_part memory_window / 2 in if leb 1 keep_n then keep_n else 1)
    else default_keep_context_messages

abbrev pub default_max_compaction_input_bytes : ℕ
default_max_compaction_input_bytes = 524288

unfoldable pub capped_text : Env → List Message → String → String
capped_text env [] sb = sb
capped_text env (m ∷ ms) sb =
    let rest = capped_text env ms (append_line sb m) in
    if leb default_max_compaction_input_bytes (env.byte_length sb) then sb else rest

unfoldable pub run_summarization : Env → List Message → String → Result String
unfolding capped_text
run_summarization env messages model =
    elim (env.run_text (capped_text env messages summarization_prompt) model) [
      | err e ↦ err (wrapped "run text" e)
      | ok text ↦ ok text
    ]

abbrev pub model_of : SessionManager → String
model_of m = if str_eq m.summarization_model "" then m.model else m.summarization_model

-- `cut` messages become one summary.
unfoldable pub with_summary : Env → String → List Message → ℕ → List Message
unfolding run_summarization
with_summary env model messages cut = elim (run_summarization env (take cut messages) model) [
  | err e ↦ messages
  | ok summary ↦ text_message Role.system summary env.now_text ∷ drop cut messages
]

unfoldable pub summarize_history_if_needed : SessionManager → Env → List Message → List Message
unfolding get_summarization_keep_n with_summary
summarize_history_if_needed m env messages =
    let keep_n = get_summarization_keep_n m.memory_window in
    if not m.summarization_enabled || leb_ℤ (pos (length messages)) (env.threshold m.memory_window)
    then messages
    else if str_eq (model_of m) ""
    then messages
    else if leb (length messages) keep_n
    then messages
    else with_summary env (model_of m) messages (length messages - keep_n)

unfoldable pub compact_history_if_needed :
    SessionManager → Env → String → List Message → List Message × List Effect
unfolding compact_messages run_consolidation
compact_history_if_needed m env key messages =
    let c =
      compact_messages messages m.memory_window (pos default_keep_context_messages)
        m.pruning_policy in
    if c.dropped == 0 then (messages, []) else (
      c.messages,
      (if m.has_consolidator && str_eq m.strategy "memoryFlush"
            then run_consolidation env key messages c.keep
            else [])
          ++ (if str_eq m.storage_root ""
              then []
              else journal_entry key c.dropped (length c.messages) ∷ []),
    )

unfoldable pub prepare_history :
    SessionManager
    → Env
    → Option (List Message → List Message)
    → String
    → List Message
    → List Message × List Effect
unfolding run_pre_history_hooks prune_messages consolidate_dropped summarize_history_if_needed
    compact_history_if_needed
prepare_history m env hooks key messages =
    let before = run_pre_history_hooks hooks messages in
    let (pruned, dropped) =
      prune_messages env.parse_duration env.parse_rfc3339 before m.pruning_policy env.now in
    let left = if length dropped == 0 then before else pruned in
    let flushed =
      if length dropped == 0 || not m.has_consolidator
      then []
      else consolidate_dropped env key dropped in
    let (messages', effects) =
      compact_history_if_needed m env key (summarize_history_if_needed m env left) in
    (messages', flushed ++ effects)
