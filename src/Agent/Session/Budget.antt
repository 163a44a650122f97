-- ===== src/Agent/Session/Budget.antt =====
-- internal/agent/session_history.go: compaction of a stored history that is over the token budget,
-- under the session lock.
pub mod Kept
pub mod Published
use Prim.Native.String.{◌++◌ as str_append}
use gobot.Prelude.{
  ℕ, ◌-◌, leb, Bool, true, false, not, ◌||◌, ◌&&◌, Option, none, some, List, [], ◌∷◌, String,
  length, take, drop, ◌==◌, if◌then◌else◌,
}
use gobot.Prelude.Int.{ℤ, pos, pos_part, leb_ℤ, neg_part}
use gobot.Prelude.Results.{Err, context_done, Result, ok, err, wrapped}
use gobot.Agent.Message.{Message, Role}
use gobot.Context.Checkpoints.{ThreadSnapshot}
use gobot.Agent.Session.{
  CheckpointStore, SessionManager, Env, append_line, text_message, summarization_prompt,
}
use gobot.Agent.Session.History.{model_of}
use gobot.Agent.Session.Turn.{estimate_tokens_for_messages}

-- The places where the code looks whether its context is done.
pub data Look : Type 0 where
  at_start after_tokens after_refresh before_summary before_save after_save : Look

abbrev pub equal_ℤ : ℤ → ℤ → Bool
equal_ℤ a b = (pos_part a == pos_part b) && (neg_part a == neg_part b)

unfoldable pub history_text : List Message → String → String
history_text [] sb = sb
history_text (m ∷ ms) sb = history_text ms (append_line sb m)

unfoldable pub build_compaction_summary :
    SessionManager → Env → (Look → Bool) → List Message → Result String
unfolding history_text
build_compaction_summary m env done to_summarize =
    if done before_summary
    then err (wrapped "summarize cancelled" context_done)
    else elim (env.run_text (str_append summarization_prompt (history_text to_summarize ""))
        (model_of m)) [ err e ↦ err (wrapped "summarize" e) | ok text ↦ ok text ]

abbrev pub turns_to_keep : SessionManager → ℕ
turns_to_keep m = if leb_ℤ m.summary_turns (pos 0) then 20 else pos_part m.summary_turns

-- The summary of the older messages, then the newest ones.
abbrev pub compacted_messages : SessionManager → Env → String → List Message → List Message
compacted_messages m env summary messages =
    text_message Role.system summary env.now_text
    ∷ drop (length messages - turns_to_keep m) messages

module _ {S : Type 0} (store : CheckpointStore S) (m : SessionManager) (env : Env)
    (done : Look → Bool) where
  unfoldable pub refresh_compaction_tokens : String → ℤ → S → Bool × S
  refresh_compaction_tokens key estimated s =
      let (got, s') = store.get_session_tokens key s in
      elim got [
        | err e ↦ (false, s')
        | ok (tokens, compacted_at) ↦
            if done after_tokens
            then (false, s')
            else if equal_ℤ tokens estimated
            then (not (done after_refresh), s')
            else let (put, s'') = store.update_session_tokens key estimated compacted_at s' in
              elim put [ err e ↦ (false, s'') | ok _ ↦ (not (done after_refresh), s'') ]
      ]

  unfoldable pub load_compaction_snapshot : String → S → Option ThreadSnapshot × S
  unfolding refresh_compaction_tokens estimate_tokens_for_messages
  load_compaction_snapshot key s =
      if leb_ℤ m.token_budget (pos 0) || done at_start
      then (none, s)
      else let (loaded, s') = store.load_latest key s in
        elim loaded [
          | err e ↦ (none, s')
          | ok none ↦ (none, s')
          | ok (some snap) ↦
              let estimated = estimate_tokens_for_messages env snap.messages (pos 0) in
              let (refreshed, s'') = refresh_compaction_tokens key estimated s' in
              if not refreshed
              then (none, s'')
              else if leb_ℤ estimated m.token_budget || (length snap.messages == 0)
              then (none, s'')
              else (some snap, s'')
        ]

  unfoldable pub publish_compaction : String → ThreadSnapshot → List Message → S → S
  unfolding estimate_tokens_for_messages
  publish_compaction key snap compacted s =
      if done before_save
      then s
      else let (out, s') = store.save_snapshot key snap.iteration compacted s in
        elim out [
          | err e ↦ s'
          | ok saved ↦
              if not saved || done after_save
              then s'
              else let tokens = estimate_tokens_for_messages env compacted (pos 0) in
                (store.update_session_tokens key tokens (some env.now) s').1
        ]

  unfoldable pub compact_session_locked : String → S → S
  unfolding load_compaction_snapshot build_compaction_summary publish_compaction
  compact_session_locked key s =
      let (loaded, s') = load_compaction_snapshot key s in
      elim loaded [
        | none ↦ s'
        | some snap ↦
            if leb (length snap.messages) (turns_to_keep m)
            then s'
            else let older = take (length snap.messages - turns_to_keep m) snap.messages in
              elim (build_compaction_summary m env done older) [
                | err e ↦ s'
                | ok summary ↦
                    publish_compaction key snap (compacted_messages m env summary snap.messages) s'
              ]
      ]
