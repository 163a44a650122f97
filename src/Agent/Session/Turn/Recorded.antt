-- ===== src/Agent/Session/Turn/Recorded.antt =====
-- Turn: what a dispatch leaves in the store.
use gobot.Prelude.{
  ℕ, ◌==◌, ◌≡◌, refl, ◌∙◌, subst, ◌⊎◌, inl, inr, Bool, true, false, ◌||◌, Option, none, some, List,
  [], ◌∷◌, ◌++◌, String, length, arith, Bool-cases,
}
use gobot.Prelude.Int.{ℤ, pos, add64, leb_ℤ, ◌≤ℤ◌}
use gobot.Prelude.Results.{ok, Result-cases}
use gobot.Agent.Message.{Message, Role}
use gobot.Context.Checkpoints.{ThreadSnapshot}
use gobot.Agent.Session.{CheckpointStore, SessionManager, Env, Effect, text_message}
use gobot.Agent.Session.History.{prepare_history}
use gobot.Agent.Session.Turn.{
  Loaded, persist_result, update_token_budget, estimate_tokens_for_messages, finish, dispatch,
  dispatch_locked, add_missing_timestamps,
}
use gobot.Agent.Session.Turn.Loading.{
  load_history-err, load_history-some, load_history-none, dispatch_locked-err, dispatch_locked-ok,
}
use gobot.Agent.Session.Laws.{
  Stored, Keeps, Replaced, Keeps-trans, Replaced-Keeps, Keeps-Replaced, IsStore,
}

-- What the runner returns can be stored, once it has its times.
abbrev pub RunsStorable : Env → (List Message → Type 0) → Type 0
RunsStorable env IsStorable =
    (ms : List Message) (response : String) (updated : List Message)
    → env.run ms ≡ ok (response, updated)
    → IsStorable (add_missing_timestamps env updated)

-- One turn's end: the history that the runner returned is the stored one.
abbrev pub Recorded :
    {S : Type 0} → Env → (S → Type 0) → (String → S → Stored) → String → ℤ → S → S → Type 0
Recorded env IsSound view key it s s' =
    (ms : List Message) × (response : String) × (updated : List Message) × (env.run ms
      ≡ ok (response, updated))
    × Replaced IsSound view key (add64 it (pos 1), add_missing_timestamps env updated) s s'

module _ {S : Type 0} (store : CheckpointStore S) (IsSound : S → Type 0)
    (IsStorable : List Message → Type 0) (view : String → S → Stored)
    (laws : IsStore store IsSound IsStorable view) (m : SessionManager) (env : Env)
    (done : ℕ → Bool) where
  budget-Keeps :
      (key : String) (updated : List Message) (s : S)
      → IsSound s
      → Keeps IsSound view s (update_token_budget m env done (some store) key updated s).1
  unfolding update_token_budget
  budget-Keeps key updated s sound =
      let s' = (store.get_session_tokens key s).1 in
      let got = laws.get_session_tokens key s sound in
      let tokens = estimate_tokens_for_messages env updated (pos 0) in
      elim (Bool-cases (leb_ℤ m.token_budget (pos 0) || done 0)) [
        | inl stop ↦ rw (update_token_budget, stop) (sound, λ j. refl)
        | inr go ↦ elim (Result-cases (store.get_session_tokens key s).0) [
          | inr (e, bad) ↦ rw (update_token_budget, go, bad) got
          | inl ((n, at), good) ↦
              let put =
                Keeps-trans IsSound view s s' _ got
                  (laws.update_session_tokens key tokens at s' got.0) in
              elim (Bool-cases (done 1)) [
                | inl stop ↦ rw (update_token_budget, go, good, stop) got
                | inr on ↦ elim (Result-cases (store.update_session_tokens key tokens at s').0) [
                  | inl (u, fine) ↦ rw (update_token_budget, go, good, on, fine) put
                  | inr (e, bad) ↦ rw (update_token_budget, go, good, on, bad) put
                ]
              ]
        ]
      ]

  pub persist-cases :
      (key : String) (it : ℤ) (updated : List Message) (stateless : Bool) (s : S)
      → IsSound s
      → IsStorable updated
      → ((h : ℤ × List Message) → view key s ≡ some h → h.0 ≤ℤ add64 it (pos 1))
      → let p = persist_result m (some store) key it updated stateless s in
        Keeps IsSound view s p.state
        ⊎ ((p.persisted ≡ true) × Replaced IsSound view key (add64 it (pos 1), updated) s p.state)
  unfolding persist_result
  persist-cases key it updated stateless s sound storable le =
      let it' = add64 it (pos 1) in
      elim (Bool-cases (stateless || (length updated == 0))) [
        | inl skip ↦ rw (persist_result, skip) (inl (sound, λ j. refl))
        | inr go ↦ elim (Result-cases (store.save_snapshot key it' updated s).0) [
          | inr (e, bad) ↦
              rw (persist_result, go, bad) (inl (laws.save_err key it' updated s e sound bad))
          | inl (false, refused) ↦
              rw (persist_result, go, refused)
                (inl (laws.save_refused key it' updated s sound refused))
          | inl (true, good) ↦
              rw (persist_result, go, good)
                (inr (
                  refl,
                  (
                    laws.save_sound key it' updated s sound,
                    laws.save_ok key it' updated s sound storable le good,
                    λ j ne. laws.save_other key it' updated s j ne,
                  ),
                ))
        ]
      ]

  finish-cases :
      (post : String → String) (key : String) (loaded : Loaded) (response : String)
      (updated : List Message) (before : List Effect) (s : S)
      → IsSound s
      → IsStorable updated
      → ((h : ℤ × List Message) → view key s ≡ some h → h.0 ≤ℤ add64 loaded.iteration (pos 1))
      → let out = finish m env done post (some store) key loaded response updated before s in
        Keeps IsSound view s out.state
        ⊎ Replaced IsSound view key (add64 loaded.iteration (pos 1), updated) s out.state
  unfolding finish
  finish-cases post key loaded response updated before s sound storable le =
      let p = persist_result m (some store) key loaded.iteration updated loaded.stateless s in
      elim (persist-cases key loaded.iteration updated loaded.stateless s sound storable le) [
        | inl kept ↦ elim (Bool-cases p.persisted) [
          | inl wrote ↦
              rw (finish, wrote)
                (inl (
                  Keeps-trans IsSound view s p.state _ kept
                    (budget-Keeps key updated p.state kept.0)))
          | inr blank ↦ rw (finish, blank) (inl kept)
        ]
        | inr (wrote, new) ↦
            rw (finish, wrote)
              (inr (
                Replaced-Keeps IsSound view key (add64 loaded.iteration (pos 1), updated) s p.state
                  _ new (budget-Keeps key updated p.state new.0)))
      ]

  dispatch-cases :
      (pre : Option (List Message → List Message)) (post : String → String) (key message : String)
      (loaded : Loaded) (s : S)
      → IsSound s
      → RunsStorable env IsStorable
      → ((h : ℤ × List Message) → view key s ≡ some h → h.0 ≤ℤ add64 loaded.iteration (pos 1))
      → let out = dispatch m env done pre post (some store) key message loaded s in
        Keeps IsSound view s out.state ⊎ Recorded env IsSound view key loaded.iteration s out.state
  unfolding dispatch
  dispatch-cases pre post key message loaded s sound storable le =
      let h = prepare_history m env pre key loaded.messages in
      let asked = h.0 ++ text_message Role.user message env.now_text ∷ [] in
      elim (Result-cases (env.run asked)) [
        | inr (e, bad) ↦ rw (dispatch, bad) (inl (sound, λ j. refl))
        | inl ((response, updated), good) ↦
            rw (dispatch, good)
              (elim (finish-cases post key loaded response (add_missing_timestamps env updated) h.1
                s sound (storable asked response updated good) le) [
                  | inl kept ↦ inl kept
                  | inr new ↦ inr (asked, response, updated, good, new)
                ])
      ]

  -- Over a store that keeps the contract, from a sound state, where what the runner returns can be
  -- stored, a thread that loads nothing has nothing stored and a loaded iteration can be counted up,
  -- a dispatch leaves every stored history as it is, or it replaces the history of its own thread by
  -- one that the runner returned, with its times added, under the next iteration, counted from 0
  -- where nothing was stored.
  pub dispatch_locked-cases :
      (pre : Option (List Message → List Message)) (post : String → String) (key message : String)
      (s : S)
      → IsSound s
      → RunsStorable env IsStorable
      → ((store.load_latest key s).0 ≡ ok none → view key s ≡ none)
      → ((snap : ThreadSnapshot)
          → (store.load_latest key s).0 ≡ ok (some snap)
          → snap.iteration ≤ℤ add64 snap.iteration (pos 1))
      → let out = dispatch_locked m env done pre post (some store) key message s in
        Keeps IsSound view s out.state
        ⊎ ((it : ℤ) × (((ms : List Message) × (view key s ≡ some (it, ms)))
              ⊎ ((view key s ≡ none) × (it ≡ pos 0)))
            × Recorded env IsSound view key it s out.state)
  dispatch_locked-cases pre post key message s sound storable fresh up =
      let s' = (store.load_latest key s).1 in
      let got = laws.load_latest key s sound in
      let run = dispatch_locked m env done pre post (some store) key message s in
      elim (Result-cases (store.load_latest key s).0) [
        | inr (e, bad) ↦
            let out =
              dispatch_locked-err m env done pre post (some store) key message s _ s'
                (load_history-err store m.model key s e bad) in
            rw out (inl got)
        | inl (some snap, good) ↦
            let held = laws.load_some key s snap good in
            let held' = got.1 key ∙ held in
            let bound : (h : ℤ × List Message)
                → view key s' ≡ some h
                → h.0 ≤ℤ add64 snap.iteration (pos 1) =
              λ h e.
                let same : (snap.iteration, snap.messages) ≡ h = ground arith in
                subst (λ g. g.0 ≤ℤ add64 snap.iteration (pos 1)) same (up snap good) in
            let out =
              dispatch_locked-ok m env done pre post (some store) key message s _ s'
                (load_history-some store m.model key s snap good) in
            rw out (elim (dispatch-cases pre post key message _ s' got.0 storable bound) [
              | inl kept ↦ inl (Keeps-trans IsSound view s s' _ got kept)
              | inr (ms, r, u, ran, new) ↦ inr (
                snap.iteration,
                inl (snap.messages, held),
                (ms, r, u, ran, Keeps-Replaced IsSound view key _ s s' _ got new),
              )
            ])
        | inl (none, good) ↦
            let (stateless, loaded) = load_history-none store m.model key s good in
            let t = (store.create_thread key m.model s').1 in
            let made =
              Keeps-trans IsSound view s s' t got (laws.create_thread key m.model s' got.0) in
            let empty = fresh good in
            let empty' = made.1 key ∙ empty in
            let bound : (h : ℤ × List Message)
                → view key t ≡ some h
                → h.0 ≤ℤ add64 (pos 0) (pos 1) =
              λ h e. absurd (ground arith) in
            let out =
              dispatch_locked-ok m env done pre post (some store) key message s _ t loaded in
            rw out (elim (dispatch-cases pre post key message _ t made.0 storable bound) [
              | inl kept ↦ inl (Keeps-trans IsSound view s t _ made kept)
              | inr (ms, r, u, ran, new) ↦ inr (
                pos 0,
                inr (empty, refl),
                (ms, r, u, ran, Keeps-Replaced IsSound view key _ s t _ made new),
              )
            ])
      ]
