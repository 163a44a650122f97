-- ===== src/Agent/Session/Budget/Published.antt =====
-- Budget: a compaction of which no call fails.
use gobot.Prelude.{
  ◌-◌, leb, ◌<◌, ◌≡◌, refl, ◌∙◌, subst, inl, inr, Bool, true, false, ◌||◌, Option, some, List, ◌∷◌,
  String, length, take, last_of, ◌==◌, arith, Bool-cases,
}
use gobot.Prelude.Int.{ℤ, pos, leb_ℤ, ltb_ℤ, ◌≤ℤ◌}
use gobot.Prelude.Results.{ok}
use gobot.Agent.Message.{Message, Role}
use gobot.Context.Checkpoints.{ThreadSnapshot}
use gobot.Agent.Session.{CheckpointStore, SessionManager, Env, text_message}
use gobot.Agent.Session.Turn.{estimate_tokens_for_messages}
use gobot.Agent.Session.Laws.{Stored, Replaced, Replaced-Keeps, Keeps-Replaced, IsStore}
use gobot.Agent.Session.Budget.{
  Look, equal_ℤ, build_compaction_summary, turns_to_keep, compacted_messages,
  refresh_compaction_tokens, load_compaction_snapshot, publish_compaction, compact_session_locked,
}
use gobot.Agent.Session.Budget.Kept.{snapshot-Keeps}

-- The calls of a store that the compaction makes after the load succeed.
pub record IsWorking {S : Type 0} (store : CheckpointStore S) (key : String) : Type 0 where
  pub gets : (s : S) → (p : ℤ × Option ℤ) × ((store.get_session_tokens key s).0 ≡ ok p)
  pub updates :
      (tokens : ℤ) (at : Option ℤ) (s : S) → (store.update_session_tokens key tokens at s).0 ≡ ok tt
  pub saves : (it : ℤ) (ms : List Message) (s : S) → (store.save_snapshot key it ms s).0 ≡ ok true

module _ {S : Type 0} (store : CheckpointStore S) (m : SessionManager) (env : Env)
    (done : Look → Bool) (key : String) (works : IsWorking store key)
    (alive : (l : Look) → done l ≡ false) where
  refresh-works :
      (estimated : ℤ) (s : S)
      → (refresh_compaction_tokens store m env done key estimated s).0 ≡ true
  unfolding refresh_compaction_tokens
  refresh-works estimated s =
      let s' = (store.get_session_tokens key s).1 in
      let ((tokens, at), got) = works.gets s in
      let a = alive Look.after_tokens in
      let b = alive Look.after_refresh in
      elim (Bool-cases (equal_ℤ tokens estimated)) [
        | inl same ↦ rw (refresh_compaction_tokens, got, a, same, b) refl
        | inr other ↦
            let put = works.updates estimated at s' in
            rw (refresh_compaction_tokens, got, a, other, put, b) refl
      ]

  snapshot-works :
      (s : S) (snap : ThreadSnapshot)
      → ltb_ℤ (pos 0) m.token_budget ≡ true
      → (store.load_latest key s).0 ≡ ok (some snap)
      → ltb_ℤ m.token_budget (estimate_tokens_for_messages env snap.messages (pos 0)) ≡ true
      → 0 < length snap.messages
      → (load_compaction_snapshot store m env done key s).0 ≡ some snap
  unfolding load_compaction_snapshot
  snapshot-works s snap budget loaded over nonempty =
      let estimated = estimate_tokens_for_messages env snap.messages (pos 0) in
      let s' = (store.load_latest key s).1 in
      let start : (leb_ℤ m.token_budget (pos 0) || done Look.at_start) ≡ false =
        ground (arith, alive Look.at_start) in
      let large : (leb_ℤ estimated m.token_budget || (length snap.messages == 0)) ≡ false =
        ground arith in
      let fresh = refresh-works estimated s' in
      rw (load_compaction_snapshot, start, loaded, fresh, large) refl

  -- Over a store that keeps the contract and whose other calls succeed, from a sound state, while
  -- the context lives, where a positive budget is exceeded by a loaded history of more messages than
  -- are to be kept, the model gives a summary and the compacted history can be stored, a compaction
  -- replaces the stored history by the summary and the newest messages, unchanged, under the same
  -- iteration, and leaves the other threads.
  pub compact_session-published :
      (IsSound : S → Type 0) (IsStorable : List Message → Type 0) (view : String → S → Stored)
      (s : S) (snap : ThreadSnapshot) (summary : String)
      → IsStore store IsSound IsStorable view
      → IsSound s
      → ltb_ℤ (pos 0) m.token_budget ≡ true
      → (store.load_latest key s).0 ≡ ok (some snap)
      → ltb_ℤ m.token_budget (estimate_tokens_for_messages env snap.messages (pos 0)) ≡ true
      → turns_to_keep m < length snap.messages
      → build_compaction_summary m env done
          (take (length snap.messages - turns_to_keep m) snap.messages)
        ≡ ok summary
      → IsStorable (compacted_messages m env summary snap.messages)
      → let new =
          text_message Role.system summary env.now_text ∷ last_of (turns_to_keep m) snap.messages in
        Replaced IsSound view key
          (snap.iteration, new)
          s
          (compact_session_locked store m env done key s)
  unfolding compact_session_locked publish_compaction last_of
  compact_session-published IsSound IsStorable view s snap summary laws sound budget loaded over
        long good storable =
      let t = (load_compaction_snapshot store m env done key s).1 in
      let found = snapshot-works s snap budget loaded over (omega arith) in
      let (kept, held) = snapshot-Keeps store IsSound IsStorable view laws m env done key s sound in
      let more : leb (length snap.messages) (turns_to_keep m) ≡ false = ground arith in
      let ms = compacted_messages m env summary snap.messages in
      let u = (store.save_snapshot key snap.iteration ms t).1 in
      let saved = works.saves snap.iteration ms t in
      let a = alive Look.before_save in
      let b = alive Look.after_save in
      let held' = kept.1 key ∙ held snap found in
      let above : (h : ℤ × List Message) → view key t ≡ some h → h.0 ≤ℤ snap.iteration = λ h e.
        let same : (snap.iteration, snap.messages) ≡ h = ground arith in
        subst (λ g. g.0 ≤ℤ snap.iteration) same (omega arith) in
      let new : Replaced IsSound view key (snap.iteration, ms) t u = (
        laws.save_sound key snap.iteration ms t kept.0,
        laws.save_ok key snap.iteration ms t kept.0 storable above saved,
        λ j ne. laws.save_other key snap.iteration ms t j ne,
      ) in
      let tokens = estimate_tokens_for_messages env ms (pos 0) in
      let last = laws.update_session_tokens key tokens (some env.now) u new.0 in
      rw (compact_session_locked, found, more, good, publish_compaction, a, saved, b)
        (Keeps-Replaced IsSound view key (snap.iteration, ms) s t _ kept
          (Replaced-Keeps IsSound view key (snap.iteration, ms) t u _ new last))
