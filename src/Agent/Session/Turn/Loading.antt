-- ===== src/Agent/Session/Turn/Loading.antt =====
-- Turn: what a dispatch starts from, by what the store's load returns.
use gobot.Prelude.{ℕ, ◌≡◌, refl, ap, Bool, true, false, Option, none, some, List, [], String}
use gobot.Prelude.Int.{pos}
use gobot.Prelude.Results.{Err, ok, err, wrapped}
use gobot.Agent.Message.{Message}
use gobot.Context.Checkpoints.{ThreadSnapshot}
use gobot.Agent.Session.{CheckpointStore, SessionManager, Env}
use gobot.Agent.Session.Turn.{Loaded, dispatch, dispatch_locked, load_history}

module _ {S : Type 0} (store : CheckpointStore S) (model key : String) (s : S) where
  pub load_history-err :
      (e : Err)
      → (store.load_latest key s).0 ≡ err e
      → load_history (some store) model key s
        ≡ (err (wrapped "load conversation checkpoint" e), (store.load_latest key s).1)
  unfolding load_history
  load_history-err e h = rw (load_history, h) refl

  pub load_history-some :
      (snap : ThreadSnapshot)
      → (store.load_latest key s).0 ≡ ok (some snap)
      → load_history (some store) model key s ≡ (
        ok (record { messages = snap.messages; iteration = snap.iteration; stateless = false }),
        (store.load_latest key s).1,
      )
  unfolding load_history
  load_history-some snap h = rw (load_history, h) refl

  pub load_history-none :
      (store.load_latest key s).0 ≡ ok none
      → (stateless : Bool) × (load_history (some store) model key s ≡ (
        ok (record { messages = []; iteration = pos 0; stateless = stateless }),
        (store.create_thread key model (store.load_latest key s).1).1,
      ))
  unfolding load_history
  load_history-none h =
      let stateless : Bool = elim (store.create_thread key model (store.load_latest key s).1).0 [
        | ok _ ↦ false
        | err e ↦ true
      ] in
      (stateless, rw (load_history, h) refl)

module _ {S : Type 0} (m : SessionManager) (env : Env) (done : ℕ → Bool)
    (pre : Option (List Message → List Message)) (post : String → String)
    (store : Option (CheckpointStore S)) (key message : String) (s : S) where
  pub dispatch_locked-err :
      (e : Err) (t : S)
      → load_history store m.model key s ≡ (err e, t)
      → dispatch_locked m env done pre post store key message s
        ≡ record { response = err e; state = t; effects = []; compacts = false }
  unfolding dispatch_locked
  dispatch_locked-err e t h =
      let reply = ap (λ p. p.0) h in
      let state = ap (λ p. p.1) h in rw (dispatch_locked, reply, state) refl

  pub dispatch_locked-ok :
      (l : Loaded) (t : S)
      → load_history store m.model key s ≡ (ok l, t)
      → dispatch_locked m env done pre post store key message s
        ≡ dispatch m env done pre post store key message l t
  unfolding dispatch_locked
  dispatch_locked-ok l t h =
      let reply = ap (λ p. p.0) h in
      let state = ap (λ p. p.1) h in rw (dispatch_locked, reply, state) refl
