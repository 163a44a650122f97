-- ===== src/Agent/Session/Turn.antt =====
-- internal/agent/session_history.go and agent.go: one dispatch of a user's message, from the loaded
-- history to the saved one. Tracing and the session lock stand around it and are left out; the
-- background compaction that it may start is a flag.
pub mod Loading
pub mod Recorded
pub mod Warned
use Prim.Native.String.{◌++◌ as str_append}
use gobot.Prelude.{
  ℕ, ◌+◌, ◌==◌, Bool, true, false, not, ◌&&◌, ◌||◌, Option, none, some, List, [], ◌∷◌, ◌++◌, String,
  str_eq, length, if◌then◌else◌,
}
use gobot.Prelude.Int.{ℤ, pos, add64, leb_ℤ, ltb_ℤ}
use gobot.Prelude.Results.{Err, Result, ok, err, wrapped}
use gobot.Agent.Message.{Message, Role, content_string}
use gobot.Context.Checkpoints.{ThreadSnapshot}
use gobot.Agent.Session.{
  CheckpointStore, SessionManager, Env, Effect, session_log, text_message, stateless_warning,
  checkpoint_save_warning,
}
use gobot.Agent.Session.History.{prepare_history}

-- StripSilent, by what strings.CutPrefix finds after "[SILENT]".
unfoldable pub strip_silent : (String → Option String) → (String → String) → String → String × Bool
strip_silent cut_prefix trim_space message = elim (cut_prefix message) [
  | some trimmed ↦ (trim_space trimmed, true)
  | none ↦ (message, false)
]

-- Whether all messages are without a time, and the messages with the last ones stamped.
unfoldable pub stamp : String → List Message → Bool × List Message
stamp now [] = (true, [])
stamp now (m ∷ ms) =
    let (all_blank, rest) = stamp now ms in
    if all_blank && str_eq m.created_at ""
    then (true, record m { created_at = now } ∷ rest)
    else (false, m ∷ rest)

unfoldable pub add_missing_timestamps : Env → List Message → List Message
unfolding stamp
add_missing_timestamps env updated = (stamp env.now_text updated).1

unfoldable pub estimate_tokens_for_messages : Env → List Message → ℤ → ℤ
estimate_tokens_for_messages env [] total = total
estimate_tokens_for_messages env (m ∷ ms) total =
    let tokens = env.scaled (env.words (content_string m.content)) in
    estimate_tokens_for_messages env ms (add64 total (add64 tokens (pos 4)))

-- The history, its iteration, and whether the turn is stateless.
pub record Loaded : Type 0 where
  pub messages : List Message
  pub iteration : ℤ
  pub stateless : Bool

pub record Persisted (S : Type 0) : Type 0 where
  pub persisted : Bool
  pub checkpoint_save_failed : Bool
  pub state : S
  pub effects : List Effect

pub record Dispatched (S : Type 0) : Type 0 where
  pub response : Result String
  pub state : S
  pub effects : List Effect
  pub compacts : Bool

unfoldable pub with_warnings : Bool → Bool → String → String
with_warnings stateless save_failed response =
    let warned = if stateless then str_append stateless_warning response else response in
    if save_failed then str_append checkpoint_save_warning warned else warned

module _ {S : Type 0} where
  unfoldable pub resolve_store :
      Option (String → Result (CheckpointStore S))
      → Option (CheckpointStore S)
      → String
      → Option (CheckpointStore S)
  resolve_store none shared user_id = shared
  resolve_store (some provider) shared user_id =
      if str_eq user_id ""
      then shared
      else elim (provider user_id) [ ok s ↦ some s | err e ↦ shared ]

  unfoldable pub load_history : Option (CheckpointStore S) → String → String → S → Result Loaded × S
  load_history none model key s =
      (ok (record { messages = []; iteration = pos 0; stateless = false }), s)
  load_history (some store) model key s =
      let (loaded, s') = store.load_latest key s in
      elim loaded [
        | err e ↦ (err (wrapped "load conversation checkpoint" e), s')
        | ok (some snap) ↦ (
          ok (record { messages = snap.messages; iteration = snap.iteration; stateless = false }),
          s',
        )
        | ok none ↦
            let (created, s'') = store.create_thread key model s' in
            let stateless : Bool = elim created [ ok _ ↦ false | err e ↦ true ] in
            (ok (record { messages = []; iteration = pos 0; stateless = stateless }), s'')
      ]

  unfoldable pub persist_result :
      SessionManager
      → Option (CheckpointStore S)
      → String
      → ℤ
      → List Message
      → Bool
      → S
      → Persisted S
  persist_result m none key iteration updated stateless s = record {
    persisted = false;
    checkpoint_save_failed = false;
    state = s;
    effects = [];
  }
  persist_result m (some store) key iteration updated stateless s =
      if stateless || (length updated == 0)
      then record { persisted = false; checkpoint_save_failed = false; state = s; effects = [] }
      else let it = add64 iteration (pos 1) in
        let (out, s') = store.save_snapshot key it updated s in
        let effects = if m.has_logger then session_log key it updated ∷ [] else [] in
        elim out [
          | err e ↦ record {
            persisted = false;
            checkpoint_save_failed = true;
            state = s';
            effects = effects;
          }
          | ok saved ↦ record {
            persisted = saved;
            checkpoint_save_failed = false;
            state = s';
            effects = effects;
          }
        ]

  -- `done i` says whether the context is done at the `i`-th look. The result says whether the
  -- background compaction starts.
  unfoldable pub update_token_budget :
      SessionManager
      → Env
      → (ℕ → Bool)
      → Option (CheckpointStore S)
      → String
      → List Message
      → S
      → Bool × S
  unfolding estimate_tokens_for_messages
  update_token_budget m env done none key updated s = (false, s)
  update_token_budget m env done (some store) key updated s =
      if leb_ℤ m.token_budget (pos 0) || done 0
      then (false, s)
      else let (got, s') = store.get_session_tokens key s in
        elim got [
          | err e ↦ (false, s')
          | ok (_, compacted_at) ↦
              if done 1
              then (false, s')
              else let new_tokens = estimate_tokens_for_messages env updated (pos 0) in
                let (put, s'') = store.update_session_tokens key new_tokens compacted_at s' in
                elim put [
                  | err e ↦ (false, s'')
                  | ok _ ↦ (ltb_ℤ m.token_budget new_tokens && not (done 2), s'')
                ]
        ]

  -- The end of a turn: `updated` is the runner's history with its times.
  unfoldable pub finish :
      SessionManager
      → Env
      → (ℕ → Bool)
      → (String → String)
      → Option (CheckpointStore S)
      → String
      → Loaded
      → String
      → List Message
      → List Effect
      → S
      → Dispatched S
  unfolding persist_result update_token_budget with_warnings
  finish m env done post store key loaded response updated before s =
      let p = persist_result m store key loaded.iteration updated loaded.stateless s in
      let (compacts, s') =
        if p.persisted
        then update_token_budget m env done store key updated p.state
        else (false, p.state) in
      let text = with_warnings loaded.stateless p.checkpoint_save_failed (post response) in
      record { response = ok text; state = s'; effects = before ++ p.effects; compacts = compacts }

  -- dispatch: `message` is the user's text with its prefix stripped, `pre` and `post` the hooks.
  unfoldable pub dispatch :
      SessionManager
      → Env
      → (ℕ → Bool)
      → Option (List Message → List Message)
      → (String → String)
      → Option (CheckpointStore S)
      → String
      → String
      → Loaded
      → S
      → Dispatched S
  unfolding prepare_history finish add_missing_timestamps
  dispatch m env done pre post store key message loaded s =
      let (history, before) = prepare_history m env pre key loaded.messages in
      let asked = history ++ text_message Role.user message env.now_text ∷ [] in
      elim (env.run asked) [
        | err e ↦ record {
          response = err (wrapped "runner.Run" e);
          state = s;
          effects = before;
          compacts = false;
        }
        | ok (response, updated) ↦
            finish m env done post store key loaded response (add_missing_timestamps env updated)
              before s
      ]

  -- Dispatch, once it has the session lock.
  unfoldable pub dispatch_locked :
      SessionManager
      → Env
      → (ℕ → Bool)
      → Option (List Message → List Message)
      → (String → String)
      → Option (CheckpointStore S)
      → String
      → String
      → S
      → Dispatched S
  unfolding load_history dispatch
  dispatch_locked m env done pre post store key message s =
      let (loaded, s') = load_history store m.model key s in
      elim loaded [
        | err e ↦ record { response = err e; state = s'; effects = []; compacts = false }
        | ok l ↦ dispatch m env done pre post store key message l s'
      ]
