-- ===== src/Agent/Compaction/Chain/Pairs.antt =====
-- Calls and responses of a history, and the marks under a write.
use gobot.Prelude.{
  ℕ, ◌≡◌, inl, inr, Bool, true, false, ◌&&◌, ◌||◌, List, [], ◌∷◌, String, str_eq, arith, set,
  get_or-set, Option-cases, eq_iff,
}
use gobot.Agent.Message.{Message, ToolCall, is_assistant}
use gobot.Agent.Compaction.Chain.{kept, answers}

-- Some call of the list has the ID.
abbrev pub calls_in : String → List ToolCall → Bool
calls_in id [] = false
calls_in id (tc ∷ tcs) = str_eq tc.id id || calls_in id tcs

-- An assistant turn that makes the call `id`.
abbrev pub calls : String → Message → Bool
calls id m = is_assistant m.role && calls_in id m.tool_calls

pub kept-set_mono :
    (keep : List Bool) (i j : ℕ) → kept keep j ≡ true → kept (set keep i true) j ≡ true
kept-set_mono keep i j h = ground (arith, get_or-set keep i j true false)

pub answers-not_assistant :
    (id : String) (m : Message) → answers id m ≡ true → is_assistant m.role ≡ false
answers-not_assistant id m h = ground arith

-- A response answers one call ID.
pub answers_unique : (a b : String) (m : Message) → answers a m ≡ true → answers b m ≡ true → a ≡ b
answers_unique a b m ha hb = elim (Option-cases m.tool_call_id) [
  | inl e ↦ absurd (ground arith)
  | inr (r, e) ↦ ground (arith, eq_iff r a, eq_iff r b)
]
