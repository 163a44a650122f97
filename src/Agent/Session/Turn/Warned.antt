-- ===== src/Agent/Session/Turn/Warned.antt =====
-- Turn: the reply of a dispatch and whether its history was saved.
use Prim.Native.String.{◌++◌ as str_append}
use gobot.Prelude.{
  ℕ, ◌<◌, ◌==◌, ◌≡◌, refl, ap, ◌∙◌, ◌⊎◌, inl, inr, Bool, true, false, ◌&&◌, Option, some, List, [],
  ◌∷◌, ◌++◌, String, str_eq, length, arith, Bool-cases,
}
use gobot.Prelude.Int.{ℤ, pos, add64}
use gobot.Prelude.Results.{Err, ok, err, Result-cases}
use gobot.Agent.Message.{Message, Role}
use gobot.Agent.Session.{
  CheckpointStore, SessionManager, Env, Effect, text_message, stateless_warning,
  checkpoint_save_warning,
}
use gobot.Agent.Session.History.{prepare_history}
use gobot.Agent.Session.Turn.{
  Loaded, Persisted, Dispatched, with_warnings, persist_result, finish, dispatch, stamp,
  add_missing_timestamps,
}

length-stamp : (now : String) (ms : List Message) → length (stamp now ms).1 ≡ length ms
unfolding stamp
length-stamp now [] = refl
length-stamp now (m ∷ ms) =
    let rest = length-stamp now ms in
    elim (Bool-cases ((stamp now ms).0 && str_eq m.created_at "")) [
      | inl blank ↦ ground arith
      | inr timed ↦ ground arith
    ]

module _ {S : Type 0} (m : SessionManager) (store : CheckpointStore S) (key : String) (it : ℤ)
    (ms : List Message) (s : S) where
  persist-stateless :
      persist_result m (some store) key it ms true s
      ≡ record { persisted = false; checkpoint_save_failed = false; state = s; effects = [] }
  unfolding persist_result
  persist-stateless = refl

  persist-saved :
      (b : Bool)
      → (length ms == 0) ≡ false
      → (store.save_snapshot key (add64 it (pos 1)) ms s).0 ≡ ok b
      → (persist_result m (some store) key it ms false s).checkpoint_save_failed ≡ false
  unfolding persist_result
  persist-saved b nonempty good = rw (persist_result, nonempty, good) refl

  persist-failed :
      (e : Err)
      → (length ms == 0) ≡ false
      → (store.save_snapshot key (add64 it (pos 1)) ms s).0 ≡ err e
      → let p = persist_result m (some store) key it ms false s in
        (p.checkpoint_save_failed ≡ true) × (p.persisted ≡ false)
  unfolding persist_result
  persist-failed e nonempty bad = rw (persist_result, nonempty, bad) (refl, refl)

module _ {S : Type 0} (m : SessionManager) (env : Env) (done : ℕ → Bool) (post : String → String)
    (store : CheckpointStore S) (key : String) (loaded : Loaded) (response : String)
    (ms : List Message) (before : List Effect) (s : S) where
  abbrev end_of_turn : Dispatched S
  end_of_turn = finish m env done post (some store) key loaded response ms before s

  abbrev kept_turn : Persisted S
  kept_turn = persist_result m (some store) key loaded.iteration ms loaded.stateless s

  finish-response :
      end_of_turn.response
      ≡ ok (with_warnings loaded.stateless kept_turn.checkpoint_save_failed (post response))
  unfolding finish
  finish-response = refl

  finish-reply :
      (stateless failed : Bool)
      → loaded.stateless ≡ stateless
      → kept_turn.checkpoint_save_failed ≡ failed
      → end_of_turn.response ≡ ok (with_warnings stateless failed (post response))
  finish-reply stateless failed a b =
      finish-response
      ∙ ap (λ t. ok (with_warnings t kept_turn.checkpoint_save_failed (post response))) a
      ∙ ap (λ f. ok (with_warnings stateless f (post response))) b

  finish-unsaved :
      kept_turn.persisted ≡ false
      → (end_of_turn.compacts ≡ false) × (end_of_turn.state ≡ kept_turn.state)
  unfolding finish
  finish-unsaved h = rw (finish, h) (refl, refl)

module _ {S : Type 0} (m : SessionManager) (env : Env) (done : ℕ → Bool)
    (pre : Option (List Message → List Message)) (post : String → String)
    (store : CheckpointStore S) (key message : String) (loaded : Loaded) (s : S) where
  -- The history that the runner is asked with.
  abbrev pub asked : List Message
  asked =
      (prepare_history m env pre key loaded.messages).0
      ++ text_message Role.user message env.now_text ∷ []

  dispatch-ran :
      (response : String) (updated : List Message)
      → env.run asked ≡ ok (response, updated)
      → dispatch m env done pre post (some store) key message loaded s
        ≡ finish m env done post
            (some store)
            key
            loaded
            response
            (add_missing_timestamps env updated)
            (prepare_history m env pre key loaded.messages).1
            s
  unfolding dispatch
  dispatch-ran response updated ran = rw (dispatch, ran) refl

  -- Where the runner returns a reply and a history that is not empty, the turn is stateless, saves
  -- nothing and warns of it; or the save of the history under the next iteration returns no error
  -- and the reply is the hooks' alone; or that save returns an error, the reply warns of it and no
  -- compaction starts.
  pub dispatch-replies :
      (response : String) (updated : List Message)
      → env.run asked ≡ ok (response, updated)
      → 0 < length updated
      → let out = dispatch m env done pre post (some store) key message loaded s in
        let it = add64 loaded.iteration (pos 1) in
        let saved = (store.save_snapshot key it (add_missing_timestamps env updated) s).0 in
        ((loaded.stateless ≡ true)
          × (out.response ≡ ok (str_append stateless_warning (post response)))
          × (out.state ≡ s))
        ⊎ ((loaded.stateless ≡ false)
            × ((b : Bool) × (saved ≡ ok b))
            × (out.response ≡ ok (post response)))
        ⊎ ((loaded.stateless ≡ false)
            × ((e : Err) × (saved ≡ err e))
            × (out.response ≡ ok (str_append checkpoint_save_warning (post response)))
            × (out.compacts ≡ false))
  unfolding with_warnings add_missing_timestamps
  dispatch-replies response updated ran some_left =
      let before = (prepare_history m env pre key loaded.messages).1 in
      let ms = add_missing_timestamps env updated in
      let it = add64 loaded.iteration (pos 1) in
      let size = length-stamp env.now_text updated in
      let nonempty : (length ms == 0) ≡ false = ground arith in
      let e = dispatch-ran response updated ran in
      let reply = finish-reply m env done post store key loaded response ms before s in
      let unsaved = finish-unsaved m env done post store key loaded response ms before s in
      let persist : Bool → Persisted S =
        λ b. persist_result m (some store) key loaded.iteration ms b s in
      elim (Bool-cases loaded.stateless) [
        | inl less ↦
            let same = ap persist less ∙ persist-stateless m store key loaded.iteration ms s in
            let (_, state) = unsaved (ap (λ q. q.persisted) same) in
            rw e (
              inl (
                less,
                reply true false less (ap (λ q. q.checkpoint_save_failed) same),
                state ∙ ap (λ q. q.state) same,
              ))
        | inr full ↦ elim (Result-cases (store.save_snapshot key it ms s).0) [
          | inl (b, good) ↦
              let fine =
                ap (λ b. (persist b).checkpoint_save_failed) full
                ∙ persist-saved m store key loaded.iteration ms s b nonempty good in
              rw e (inr (inl (full, (b, good), reply false false full fine)))
          | inr (x, bad) ↦
              let (failed, unwritten) =
                persist-failed m store key loaded.iteration ms s x nonempty bad in
              let failed' = ap (λ b. (persist b).checkpoint_save_failed) full ∙ failed in
              let unwritten' = ap (λ b. (persist b).persisted) full ∙ unwritten in
              rw e
                (inr (inr (full, (x, bad), reply false true full failed', (unsaved unwritten').0)))
        ]
      ]
