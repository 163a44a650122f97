-- ===== src/Tests/Turns.antt =====
-- Runs of internal/agent/session_history.go over a store that is a table: turns and compactions.
use Prim.Native.String.{◌++◌ as str_append}
use gobot.Prelude.{
  ◌<◌, ◌≡◌, refl, sym, subst, ◌⊎◌, Bool, true, false, Option, none, some, List, [], ◌∷◌, String,
  str_eq, eq_iff, length, last_of, if◌then◌else◌, arith,
}
use gobot.Prelude.Int.{ℤ, pos, add64, ◌≤ℤ◌}
use gobot.Prelude.Results.{Err, ok, err}
use gobot.Agent.Message.{Message, user, assistant, system}
use gobot.Context.Checkpoints.{ThreadSnapshot}
use gobot.Agent.Session.{
  CheckpointStore, SessionManager, Env, text_message, stateless_warning, checkpoint_save_warning,
}
use gobot.Agent.Session.Turn.{
  Loaded, dispatch, dispatch_locked, estimate_tokens_for_messages, add_missing_timestamps,
}
use gobot.Agent.Session.Turn.Recorded.{Recorded, dispatch_locked-cases}
use gobot.Agent.Session.Turn.Warned.{dispatch-replies}
use gobot.Agent.Session.Budget.{build_compaction_summary, turns_to_keep, compact_session_locked}
use gobot.Agent.Session.Budget.Kept.{compact_session-cases}
use gobot.Agent.Session.Budget.Published.{IsWorking, compact_session-published}
use gobot.Agent.Session.Laws.{Stored, Keeps, Replaced, IsStore}

abbrev Table : Type 0
Table = String → Stored

abbrev snapshot : Stored → Option ThreadSnapshot
snapshot none = none
snapshot (some (it, ms)) =
    some (record { iteration = it; messages = ms; model = ""; metadata = "" })

abbrev table_store : CheckpointStore Table
table_store = record {
  load_latest = λ key s. (ok (snapshot (s key)), s);
  save_snapshot = λ key it ms s. (ok true, λ j. if str_eq j key then some (it, ms) else s j);
  create_thread = λ key model s. (ok tt, s);
  update_session_tokens = λ key tokens at s. (ok tt, s);
  get_session_tokens = λ key s. (ok (pos 0, none), s);
}

abbrev view : String → Table → Stored
view key s = s key

abbrev Always : {A : Type 0} → A → Type 0
Always a = Unit

snapshot-some :
    (h : Stored) (snap : ThreadSnapshot)
    → snapshot h ≡ some snap
    → h ≡ some (snap.iteration, snap.messages)
snapshot-some none snap e = absurd (ground arith)
snapshot-some (some (it, ms)) snap e = ground arith

table_store-IsStore : IsStore table_store Always Always view
table_store-IsStore = record {
  load_latest = λ key s sound. (tt, λ j. refl);
  load_some = λ key s snap e.
      let loaded : snapshot (s key) ≡ some snap = ground arith in snapshot-some (s key) snap loaded;
  create_thread = λ key model s sound. (tt, λ j. refl);
  get_session_tokens = λ key s sound. (tt, λ j. refl);
  update_session_tokens = λ key tokens at s sound. (tt, λ j. refl);
  save_err = λ key it ms s e sound bad. absurd (ground arith);
  save_refused = λ key it ms s sound refused. absurd (ground arith);
  save_other = λ key it ms s j ne. ground (arith, eq_iff j key);
  save_sound = λ key it ms s sound. tt;
  save_ok = λ key it ms s sound storable le good. ground (arith, eq_iff key key);
}

abbrev asked : Message
asked = text_message user "hello" "t0"

abbrev answered : Message
answered = text_message assistant "hi" "t1"

abbrev manager : SessionManager
manager = record {
  model = "m";
  memory_window = pos 50;
  storage_root = "";
  has_consolidator = false;
  has_logger = false;
  pruning_policy = record { ttl = ""; keep_last_assistants = pos 0 };
  strategy = "";
  summarization_enabled = false;
  summarization_model = "";
  token_budget = pos 5;
  summary_turns = pos 1;
}

abbrev env : Env
env = record {
  run = λ ms. ok ("hi", asked ∷ answered ∷ []);
  run_text = λ prompt model. ok "summary";
  now = pos 9;
  now_text = "t9";
  parse_duration = λ text. none;
  parse_rfc3339 = λ text. none;
  trim_space = λ text. text;
  to_lower = λ text. text;
  byte_length = λ text. 0;
  words = λ text. 1;
  threshold = λ window. window;
  scaled = λ n. pos n;
}

abbrev table : Table
table key = if str_eq key "s" then some (pos 3, asked ∷ answered ∷ []) else none

dispatch_locked-cases_example :
    let out =
      dispatch_locked manager env (λ i. false) none (λ r. r) (some table_store) "s" "more" table in
    Keeps Always view table out.state
    ⊎ ((it : ℤ) × (((ms : List Message) × (view "s" table ≡ some (it, ms)))
          ⊎ ((view "s" table ≡ none) × (it ≡ pos 0)))
        × Recorded env Always view "s" it table out.state)
unfolding add64
dispatch_locked-cases_example =
    dispatch_locked-cases table_store Always Always view table_store-IsStore manager env
      (λ i. false) none (λ r. r) "s" "more" table tt (λ ms r u ran. tt) (λ e. absurd (ground arith))
      (λ snap e.
        let it : snap.iteration ≡ pos 3 = ground arith in
        subst (λ i. i ≤ℤ add64 i (pos 1)) (sym it) (omega arith))

dispatch-replies_example :
    let loaded : Loaded = record { messages = []; iteration = pos 3; stateless = false } in
    let out =
      dispatch manager env (λ i. false) none (λ r. r) (some table_store) "s" "more" loaded table in
    let saved =
      (table_store.save_snapshot "s"
        (add64 (pos 3) (pos 1))
        (add_missing_timestamps env (asked ∷ answered ∷ []))
        table).0 in
    ((false ≡ true) × (out.response ≡ ok (str_append stateless_warning "hi")) × (out.state ≡ table))
    ⊎ ((false ≡ false) × ((b : Bool) × (saved ≡ ok b)) × (out.response ≡ ok "hi"))
    ⊎ ((false ≡ false)
        × ((e : Err) × (saved ≡ err e))
        × (out.response ≡ ok (str_append checkpoint_save_warning "hi"))
        × (out.compacts ≡ false))
dispatch-replies_example =
    dispatch-replies manager env (λ i. false) none (λ r. r) table_store "s" "more"
      (record { messages = []; iteration = pos 3; stateless = false }) table "hi"
      (asked ∷ answered ∷ []) refl (omega arith)

compact_session-cases_example :
    let s' = compact_session_locked table_store manager env (λ l. false) "s" table in
    Keeps Always view table s'
    ⊎ ((it : ℤ) × (ms : List Message) × (summary : String) × (view "s" table ≡ some (it, ms))
        × (turns_to_keep manager < length ms)
        × Replaced Always view "s"
            (it, text_message system summary "t9" ∷ last_of (turns_to_keep manager) ms)
            table
            s')
compact_session-cases_example =
    compact_session-cases table_store Always Always view table_store-IsStore manager env
      (λ l. false) "s" table tt (λ summary ms. tt)

table_store-IsWorking : IsWorking table_store "s"
table_store-IsWorking = record {
  gets = λ s. ((pos 0, none), refl);
  updates = λ tokens at s. refl;
  saves = λ it ms s. refl;
}

compact_session-published_example :
    Replaced Always view "s"
      (pos 3, text_message system "summary" "t9" ∷ last_of 1 (asked ∷ answered ∷ []))
      table
      (compact_session_locked table_store manager env (λ l. false) "s" table)
unfolding estimate_tokens_for_messages add64 build_compaction_summary
compact_session-published_example =
    compact_session-published table_store manager env (λ l. false) "s" table_store-IsWorking
      (λ l. refl) Always Always view table
      (record { iteration = pos 3; messages = asked ∷ answered ∷ []; model = ""; metadata = "" })
      "summary" table_store-IsStore tt refl refl refl (omega arith) refl tt
