-- ===== src/Agent/Session/Budget/Kept.antt =====
-- Budget: what a compaction leaves in the store.
use gobot.Prelude.{
  ◌-◌, leb, ◌<◌, ◌≡◌, refl, ◌∙◌, subst, ◌⊎◌, inl, inr, Bool, true, false, ◌||◌, none, some, List,
  ◌∷◌, String, length, take, last_of, ◌==◌, arith, Bool-cases, Option-cases,
}
use gobot.Prelude.Int.{ℤ, pos, leb_ℤ, ◌≤ℤ◌}
use gobot.Prelude.Results.{Result-cases}
use gobot.Agent.Message.{Message, Role}
use gobot.Context.Checkpoints.{ThreadSnapshot}
use gobot.Agent.Session.{CheckpointStore, SessionManager, Env, text_message}
use gobot.Agent.Session.Turn.{estimate_tokens_for_messages}
use gobot.Agent.Session.Laws.{
  Stored, Keeps, Replaced, Keeps-trans, Replaced-Keeps, Keeps-Replaced, IsStore,
}
use gobot.Agent.Session.Budget.{
  Look, equal_ℤ, build_compaction_summary, turns_to_keep, compacted_messages,
  refresh_compaction_tokens, load_compaction_snapshot, publish_compaction, compact_session_locked,
}

module _ {S : Type 0} (store : CheckpointStore S) (IsSound : S → Type 0)
    (IsStorable : List Message → Type 0) (view : String → S → Stored)
    (laws : IsStore store IsSound IsStorable view) (m : SessionManager) (env : Env)
    (done : Look → Bool) where
  refresh-Keeps :
      (key : String) (estimated : ℤ) (s : S)
      → IsSound s
      → Keeps IsSound view s (refresh_compaction_tokens store m env done key estimated s).1
  unfolding refresh_compaction_tokens
  refresh-Keeps key estimated s sound =
      let s' = (store.get_session_tokens key s).1 in
      let got = laws.get_session_tokens key s sound in
      elim (Result-cases (store.get_session_tokens key s).0) [
        | inr (e, bad) ↦ rw (refresh_compaction_tokens, bad) got
        | inl ((tokens, at), good) ↦
            let put =
              Keeps-trans IsSound view s s' _ got
                (laws.update_session_tokens key estimated at s' got.0) in
            elim (Bool-cases (done Look.after_tokens)) [
              | inl stop ↦ rw (refresh_compaction_tokens, good, stop) got
              | inr go ↦ elim (Bool-cases (equal_ℤ tokens estimated)) [
                | inl same ↦ rw (refresh_compaction_tokens, good, go, same) got
                | inr other ↦
                    elim (Result-cases (store.update_session_tokens key estimated at s').0) [
                      | inl (u, fine) ↦ rw (refresh_compaction_tokens, good, go, other, fine) put
                      | inr (e, bad) ↦ rw (refresh_compaction_tokens, good, go, other, bad) put
                    ]
              ]
            ]
      ]

  -- The snapshot that the compaction starts from is the stored history.
  pub snapshot-Keeps :
      (key : String) (s : S)
      → IsSound s
      → let out = load_compaction_snapshot store m env done key s in
        Keeps IsSound view s out.1
        × ((snap : ThreadSnapshot)
            → out.0 ≡ some snap
            → view key s ≡ some (snap.iteration, snap.messages))
  unfolding load_compaction_snapshot
  snapshot-Keeps key s sound =
      let s' = (store.load_latest key s).1 in
      let got = laws.load_latest key s sound in
      elim (Bool-cases (leb_ℤ m.token_budget (pos 0) || done Look.at_start)) [
        | inl stop ↦
            rw (load_compaction_snapshot, stop)
              ((sound, λ j. refl), λ snap e. absurd (ground arith))
        | inr go ↦ elim (Result-cases (store.load_latest key s).0) [
          | inr (e, bad) ↦
              rw (load_compaction_snapshot, go, bad) (got, λ snap e. absurd (ground arith))
          | inl (none, good) ↦
              rw (load_compaction_snapshot, go, good) (got, λ snap e. absurd (ground arith))
          | inl (some snap, good) ↦
              let estimated = estimate_tokens_for_messages env snap.messages (pos 0) in
              let refreshed =
                Keeps-trans IsSound view s s' _ got (refresh-Keeps key estimated s' got.0) in
              let found = laws.load_some key s snap good in
              elim (Bool-cases (refresh_compaction_tokens store m env done key estimated s').0) [
                | inr failed ↦
                    rw (load_compaction_snapshot, go, good, failed)
                      (refreshed, λ snap e. absurd (ground arith))
                | inl fine ↦
                    elim (Bool-cases
                      (leb_ℤ estimated m.token_budget || (length snap.messages == 0))) [
                        | inl small ↦
                            rw (load_compaction_snapshot, go, good, fine, small)
                              (refreshed, λ snap e. absurd (ground arith))
                        | inr large ↦
                            rw (load_compaction_snapshot, go, good, fine, large)
                              (
                                refreshed,
                                λ t e.
                                    let same : snap ≡ t = ground arith in
                                    subst (λ u. view key s ≡ some (u.iteration, u.messages)) same
                                      found,
                              )
                      ]
              ]
        ]
      ]

  pub publish-cases :
      (key : String) (snap : ThreadSnapshot) (ms : List Message) (s : S)
      → IsSound s
      → IsStorable ms
      → view key s ≡ some (snap.iteration, snap.messages)
      → let s' = publish_compaction store m env done key snap ms s in
        Keeps IsSound view s s' ⊎ Replaced IsSound view key (snap.iteration, ms) s s'
  unfolding publish_compaction
  publish-cases key snap ms s sound storable held =
      let t = (store.save_snapshot key snap.iteration ms s).1 in
      let above : (h : ℤ × List Message) → view key s ≡ some h → h.0 ≤ℤ snap.iteration = λ h e.
        let same : (snap.iteration, snap.messages) ≡ h = ground arith in
        subst (λ g. g.0 ≤ℤ snap.iteration) same (omega arith) in
      elim (Bool-cases (done Look.before_save)) [
        | inl stop ↦ rw (publish_compaction, stop) (inl (sound, λ j. refl))
        | inr go ↦ elim (Result-cases (store.save_snapshot key snap.iteration ms s).0) [
          | inr (e, bad) ↦
              rw (publish_compaction, go, bad)
                (inl (laws.save_err key snap.iteration ms s e sound bad))
          | inl (false, refused) ↦
              rw (publish_compaction, go, refused)
                (inl (laws.save_refused key snap.iteration ms s sound refused))
          | inl (true, good) ↦
              let new : Replaced IsSound view key (snap.iteration, ms) s t = (
                laws.save_sound key snap.iteration ms s sound,
                laws.save_ok key snap.iteration ms s sound storable above good,
                λ j ne. laws.save_other key snap.iteration ms s j ne,
              ) in
              elim (Bool-cases (done Look.after_save)) [
                | inl stop ↦ rw (publish_compaction, go, good, stop) (inr new)
                | inr on ↦
                    let tokens = estimate_tokens_for_messages env ms (pos 0) in
                    rw (publish_compaction, go, good, on)
                      (inr (
                        Replaced-Keeps IsSound view key (snap.iteration, ms) s t _ new
                          (laws.update_session_tokens key tokens (some env.now) t new.0)))
              ]
        ]
      ]

  -- Over a store that keeps the contract, from a sound state, where the compacted histories can be
  -- stored, a compaction leaves every stored history as it is, or it replaces the history of its own
  -- thread, under the same iteration, by one summary message and the newest messages, as many as it
  -- is set to keep, which are fewer than before.
  pub compact_session-cases :
      (key : String) (s : S)
      → IsSound s
      → ((summary : String) (ms : List Message) → IsStorable (compacted_messages m env summary ms))
      → let s' = compact_session_locked store m env done key s in
        Keeps IsSound view s s'
        ⊎ ((it : ℤ) × (ms : List Message) × (summary : String) × (view key s ≡ some (it, ms))
            × (turns_to_keep m < length ms)
            × Replaced IsSound view key
                (it, text_message Role.system summary env.now_text ∷ last_of (turns_to_keep m) ms)
                s
                s')
  unfolding compact_session_locked last_of
  compact_session-cases key s sound storable =
      let t = (load_compaction_snapshot store m env done key s).1 in
      let (kept, found) = snapshot-Keeps key s sound in
      elim (Option-cases (load_compaction_snapshot store m env done key s).0) [
        | inl nothing ↦ rw (compact_session_locked, nothing) (inl kept)
        | inr (snap, some_snap) ↦
            let older = take (length snap.messages - turns_to_keep m) snap.messages in
            elim (Bool-cases (leb (length snap.messages) (turns_to_keep m))) [
              | inl short ↦ rw (compact_session_locked, some_snap, short) (inl kept)
              | inr long ↦ elim (Result-cases (build_compaction_summary m env done older)) [
                | inr (e, bad) ↦ rw (compact_session_locked, some_snap, long, bad) (inl kept)
                | inl (summary, good) ↦
                    let ms = compacted_messages m env summary snap.messages in
                    let held = found snap some_snap in
                    rw (compact_session_locked, some_snap, long, good)
                      (elim (publish-cases key snap ms t kept.0 (storable summary snap.messages)
                        (kept.1 key ∙ held)) [
                          | inl same ↦ inl (Keeps-trans IsSound view s t _ kept same)
                          | inr new ↦ inr (
                            snap.iteration,
                            snap.messages,
                            summary,
                            held,
                            ground arith,
                            Keeps-Replaced IsSound view key (snap.iteration, ms) s t _ kept new,
                          )
                        ])
              ]
            ]
      ]
