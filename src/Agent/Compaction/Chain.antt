-- ===== src/Agent/Compaction/Chain.antt =====
-- internal/agent/compaction.go: applyToolChainConsistency and its passes.
pub mod Pairs
pub mod CallMap
pub mod Responses
pub mod Forward
pub mod Backward
pub mod Closed
use gobot.Prelude.{
  ℕ, zero, suc, Bool, true, false, not, ◌&&◌, ◌||◌, Option, none, some, List, [], ◌∷◌, String,
  str_eq, if◌then◌else◌, get_or, set,
}
use gobot.Agent.Message.{Message, ToolCall, Role, is_assistant, is_tool}

-- The mark of message `i`.
abbrev pub kept : List Bool → ℕ → Bool
kept keep i = get_or keep i false

-- A Go map of call IDs: the newest entry of a key stands first and hides the older ones.
pub lookup : String → List (String × ℕ) → Option ℕ
lookup id [] = none
lookup id ((key, i) ∷ calls) = if str_eq key id then some i else lookup id calls

-- The inner loop of buildToolCallMap, over the calls of message `i`.
pub add_calls : ℕ → List ToolCall → List (String × ℕ) → List (String × ℕ)
add_calls i [] calls = calls
add_calls i (tc ∷ tcs) calls =
    add_calls i tcs (if str_eq tc.id "" then calls else (tc.id, i) ∷ calls)

pub tool_calls_from : ℕ → List Message → List (String × ℕ) → List (String × ℕ)
unfolding add_calls
tool_calls_from i [] calls = calls
tool_calls_from i (m ∷ ms) calls =
    tool_calls_from (suc i) ms
      (if is_assistant m.role then add_calls i m.tool_calls calls else calls)

pub build_tool_call_map : List Message → List (String × ℕ)
unfolding tool_calls_from
build_tool_call_map messages = tool_calls_from 0 messages []

-- The body of completeChainsBackward at message `i`.
pub backward_at : List (String × ℕ) → ℕ → Message → List Bool → List Bool
backward_at calls i m keep =
    if not (kept keep i) then keep else if not (is_tool m.role) then keep else elim m.tool_call_id [
      | none ↦ keep
      | some resp_id ↦ elim (lookup resp_id calls) [
        | none ↦ keep
        | some call_idx ↦ if not (kept keep call_idx) then set keep call_idx true else keep
      ]
    ]

pub backward_from : List (String × ℕ) → ℕ → List Message → List Bool → List Bool
unfolding backward_at
backward_from calls i [] keep = keep
backward_from calls i (m ∷ ms) keep = backward_from calls (suc i) ms (backward_at calls i m keep)

pub complete_chains_backward : List Message → List Bool → List (String × ℕ) → List Bool
unfolding backward_from
complete_chains_backward messages keep calls = backward_from calls 0 messages keep

-- A tool response to the call `id`.
abbrev pub answers : String → Message → Bool
answers id m = is_tool m.role && elim m.tool_call_id [ none ↦ false | some r ↦ str_eq r id ]

-- The inner loop of keepResponsesForCall, over messages and marks at once.
pub keep_responses : String → List Message → List Bool → List Bool
keep_responses id [] keep = keep
keep_responses id (m ∷ ms) [] = []
keep_responses id (m ∷ ms) (k ∷ keep) =
    (if answers id m then true else k) ∷ keep_responses id ms keep

pub keep_responses_for_call : List Message → List Bool → List ToolCall → List Bool
unfolding keep_responses
keep_responses_for_call messages keep [] = keep
keep_responses_for_call messages keep (tc ∷ tcs) =
    keep_responses_for_call messages
      (if str_eq tc.id "" then keep else keep_responses tc.id messages keep) tcs

-- The body of completeChainsForward at message `i`.
pub forward_at : List Message → ℕ → Message → List Bool → List Bool
unfolding keep_responses_for_call
forward_at messages i m keep =
    if not (kept keep i)
    then keep
    else if is_assistant m.role
    then keep_responses_for_call messages keep m.tool_calls
    else keep

pub forward_from : List Message → ℕ → List Message → List Bool → List Bool
unfolding forward_at
forward_from messages i [] keep = keep
forward_from messages i (m ∷ ms) keep =
    forward_from messages (suc i) ms (forward_at messages i m keep)

pub complete_chains_forward : List Message → List Bool → List Bool
unfolding forward_from
complete_chains_forward messages keep = forward_from messages 0 messages keep

unfoldable pub apply_tool_chain_consistency : List Message → List Bool → List Bool
unfolding build_tool_call_map complete_chains_backward complete_chains_forward lookup
apply_tool_chain_consistency messages keep =
    complete_chains_forward messages
      (complete_chains_backward messages keep (build_tool_call_map messages))
