-- ===== src/Agent/Compaction.antt =====
-- internal/agent/compaction.go: which messages of a history survive.
-- A `keep` slice is a list of marks, one for each message; Chain.antt has the tool-chain passes.
pub mod Chain
pub mod Select
pub mod Pairing
pub mod Recent
use gobot.Prelude.{
  ℕ, zero, suc, ◌-◌, Bool, true, false, not, ◌&&◌, ◌||◌, Option, none, some, List, [], ◌∷◌, String,
  str_eq, ltb, leb, ◌==◌, if◌then◌else◌, length, get_elem?, set, replicate,
}
use gobot.Prelude.Int.{ℤ, pos, pos_part, leb_ℤ, ltb_ℤ, ◌-ℤ◌}
use gobot.Agent.Message.{Message, ToolCall, Role, is_assistant, is_user}
use gobot.Agent.Compaction.Chain.{apply_tool_chain_consistency, answers}

-- config.ContextPruningConfig.
pub record Pruning : Type 0 where
  pub ttl : String
  pub keep_last_assistants : ℤ

-- The role of `messages[i]`; the loops read no index out of range.
abbrev pub role_at : List Message → ℕ → Role
role_at messages i = elim (get_elem? messages i) [ none ↦ Role.other "" | some m ↦ m.role ]

-- The body of applyKeepLastAssistants at index `i`, over the marks and `assistantsFound`.
abbrev pub keep_user_before : List Message → ℕ → List Bool → List Bool
keep_user_before messages zero keep = keep
keep_user_before messages (suc i) keep =
    if is_user (role_at messages i) then set keep i true else keep

pub keep_assistant_at : List Message → ℕ → ℕ → ℕ → List Bool → ℕ × List Bool
keep_assistant_at messages n i found keep =
    if is_assistant (role_at messages i) && ltb found n
    then (suc found, keep_user_before messages i (set keep i true))
    else (found, keep)

-- The loop from the last index down, with `i` indices left.
pub keep_assistants_below : List Message → ℕ → ℕ → ℕ → List Bool → List Bool
unfolding keep_assistant_at
keep_assistants_below messages n zero found keep = keep
keep_assistants_below messages n (suc i) found keep =
    let (found', keep') = keep_assistant_at messages n i found keep in
    keep_assistants_below messages n i found' keep'

unfoldable pub apply_keep_last_assistants : List Message → List Bool → ℤ → List Bool
unfolding keep_assistants_below
apply_keep_last_assistants messages keep keep_last =
    if leb_ℤ keep_last (pos 0)
    then keep
    else keep_assistants_below messages (pos_part keep_last) (length messages) 0 keep

-- `for i := start; i < len(msgs); i++ { keep[i] = true }`, with `n` rounds left.
pub mark_from : ℕ → ℕ → List Bool → List Bool
mark_from zero i keep = keep
mark_from (suc n) i keep = mark_from n (suc i) (set keep i true)

-- The messages that are marked, in order.
unfoldable pub select : List Message → List Bool → List Message
select [] keep = []
select (m ∷ ms) [] = []
select (m ∷ ms) (k ∷ keep) = let rest = select ms keep in if k then m ∷ rest else rest

pub any_answers : String → List Message → Bool
any_answers id [] = false
any_answers id (m ∷ ms) = answers id m || any_answers id ms

-- The outer loop of hasKeptToolCalls.
pub any_answered : List ToolCall → List Message → Bool
unfolding any_answers
any_answered [] rest = false
any_answered (tc ∷ tcs) rest =
    let later = any_answered tcs rest in
    if str_eq tc.id "" then later else if any_answers tc.id rest then true else later

pub has_kept_tool_calls : List Message → Bool
unfolding any_answered
has_kept_tool_calls [] = false
has_kept_tool_calls (m ∷ ms) = any_answered m.tool_calls ms

pub strip_leading_assistant_turns : List Message → List Message
unfolding has_kept_tool_calls
strip_leading_assistant_turns [] = []
strip_leading_assistant_turns (m ∷ ms) =
    if not (is_assistant m.role)
    then m ∷ ms
    else if has_kept_tool_calls (m ∷ ms)
    then m ∷ ms
    else ms

-- The three results of CompactMessages; a nil keep array is the empty list.
pub record Compacted : Type 0 where
  pub messages : List Message
  pub dropped : ℕ
  pub keep : List Bool

-- `keepN` clamped below `maxN`, and to at least 1; both are positive here.
unfoldable pub clamp_keep : ℕ → ℕ → ℕ
clamp_keep max_n keep_n =
    let k = if leb max_n keep_n then max_n - 1 else keep_n in if ltb k 1 then 1 else k

-- The marks that CompactMessages computes once it is triggered.
unfoldable pub keep_marks : List Message → ℕ → ℤ → List Bool
unfolding mark_from apply_keep_last_assistants apply_tool_chain_consistency
keep_marks messages keep_n keep_last =
    let start = length messages - keep_n in
    let tail = mark_from keep_n start (replicate (length messages) false) in
    apply_tool_chain_consistency messages (apply_keep_last_assistants messages tail keep_last)

unfoldable pub compact_messages : List Message → ℤ → ℤ → Pruning → Compacted
unfolding clamp_keep keep_marks select strip_leading_assistant_turns
compact_messages messages max_n keep_n pruning =
    if leb_ℤ max_n (pos 0) || leb_ℤ keep_n (pos 0)
    then record { messages = messages; dropped = 0; keep = [] }
    else if leb (length messages) (pos_part max_n)
    then record { messages = messages; dropped = 0; keep = [] }
    else let keep =
        keep_marks messages (clamp_keep (pos_part max_n) (pos_part keep_n))
          pruning.keep_last_assistants in
      let compacted = strip_leading_assistant_turns (select messages keep) in
      record { messages = compacted; dropped = length messages - length compacted; keep = keep }
