-- ===== src/Agent/Session/Durable/Contract.antt =====
-- Durable: the checkpoint database against the contract of a store.
use gobot.Prelude.{
  ℕ, ◌≡◌, ◌≢◌, refl, ap, ◌∙◌, inl, inr, Bool, true, false, Option, some, List, String, eq_iff,
  arith, Bool-cases, Option-cases,
}
use gobot.Prelude.Int.{ℤ, leb_ℤ, ◌≤ℤ◌}
use gobot.Prelude.Results.{Err, ok, err, Result-cases}
use gobot.Agent.Message.{Message}
use gobot.Context.Checkpoints.{
  Checkpoint, Db, Codec, Query, latest, saved, create_thread, update_session_tokens,
}
use gobot.Context.Checkpoints.Saving.{new_row}
use gobot.Context.Checkpoints.Saved.{saved-latest, new_row-AtTop, saved-latest_other}
use gobot.Context.Checkpoints.Loading.{save_snapshot-err}
use gobot.Agent.Session.{CheckpointStore}
use gobot.Agent.Session.Laws.{IsStore}
use gobot.Agent.Session.Durable.{
  DbState, checkpoint_manager, stored_row, stored, IsSound, IsStorable, save_snapshot-ok, same_rows,
  load_latest-some, saved-sound, stored_row-some, latest-stored,
}

create_thread-rows :
    (fails : Query → Bool) (now : ℤ) (key model meta : String) (db : Db)
    → let db' = (create_thread fails now key model meta db).1 in
      (db'.checkpoints ≡ db.checkpoints) × (db'.next_id ≡ db.next_id)
unfolding create_thread
create_thread-rows fails now key model meta db =
    elim (Bool-cases (fails Query.create_thread_exec)) [
      | inl bad ↦ (ground arith, ground arith)
      | inr good ↦ (ground arith, ground arith)
    ]

update_session_tokens-rows :
    (codec : Codec) (fails : Query → Bool) (key : String) (tokens : ℤ) (at : Option ℤ) (db : Db)
    → let db' = (update_session_tokens codec fails key tokens at db).1 in
      (db'.checkpoints ≡ db.checkpoints) × (db'.next_id ≡ db.next_id)
unfolding update_session_tokens
update_session_tokens-rows codec fails key tokens at db =
    elim (Bool-cases (fails Query.update_tokens)) [
      | inl bad ↦ (ground arith, ground arith)
      | inr good ↦ elim (Option-cases (db.threads key)) [
        | inl missing ↦ (ground arith, ground arith)
        | inr (t, found) ↦ (ground arith, ground arith)
      ]
    ]

module _ (codec : Codec) (fails : ℕ → Query → Bool) (now : ℤ) where
  abbrev manager : CheckpointStore DbState
  manager = checkpoint_manager codec fails now

  save_db :
      (key : String) (it : ℤ) (ms : List Message) (s : DbState) (e : Err)
      → (manager.save_snapshot key it ms s).0 ≡ err e
      → (manager.save_snapshot key it ms s).1.db ≡ s.db
  save_db key it ms s e h = save_snapshot-err codec (fails s.calls) now key it ms s.db e h

  save_sound :
      (key : String) (it : ℤ) (ms : List Message) (s : DbState)
      → IsSound codec s
      → IsSound codec (manager.save_snapshot key it ms s).1
  save_sound key it ms s sound =
      let s' = (manager.save_snapshot key it ms s).1 in
      elim (Result-cases (manager.save_snapshot key it ms s).0) [
        | inr (e, bad) ↦
            let same = save_db key it ms s e bad in
            (same_rows codec s s' sound (ap (λ d. d.checkpoints) same) (ap (λ d. d.next_id) same)).0
        | inl (b, good) ↦
            let (state, check, _, _, read, made) =
              save_snapshot-ok codec (fails s.calls) now key it ms s.db b good in
            saved-sound codec now key it state check s s' sound read made
      ]

  save_other :
      (key : String) (it : ℤ) (ms : List Message) (s : DbState) (j : String)
      → j ≢ key
      → stored codec j (manager.save_snapshot key it ms s).1 ≡ stored codec j s
  save_other key it ms s j ne = elim (Result-cases (manager.save_snapshot key it ms s).0) [
    | inr (e, bad) ↦ ap (λ d. stored_row codec (latest j d)) (save_db key it ms s e bad)
    | inl (b, good) ↦
        let (state, _, _, _, _, made) =
          save_snapshot-ok codec (fails s.calls) now key it ms s.db b good in
        ap (λ d. stored_row codec (latest j d)) made
        ∙ ap (stored_row codec)
            (saved-latest_other codec now key j it state s.db (ground (arith, eq_iff key j)))
  ]

  save_ok :
      (key : String) (it : ℤ) (ms : List Message) (s : DbState)
      → IsSound codec s
      → IsStorable codec ms
      → ((h : ℤ × List Message) → stored codec key s ≡ some h → h.0 ≤ℤ it)
      → (manager.save_snapshot key it ms s).0 ≡ ok true
      → stored codec key (manager.save_snapshot key it ms s).1 ≡ some (it, ms)
  save_ok key it ms s sound (state, (written, read)) le good =
      let (state', check, _, written', _, made) =
        save_snapshot-ok codec (fails s.calls) now key it ms s.db true good in
      let same : state' ≡ state = ground arith in
      let bound : (c : Checkpoint) → latest key s.db ≡ some c → leb_ℤ c.iteration it ≡ true = λ c h.
        let (ms', held) = latest-stored codec key s c sound h in
        let below = le (c.iteration, ms') held in ground arith in
      let row = new_row codec key it state s.db in
      let top =
        saved-latest codec now key it state s.db row
          (new_row-AtTop codec key it state s.db sound.valid bound) in
      let made' = made ∙ ap (λ t. saved codec now key it t s.db) same in
      ap (λ d. stored_row codec (latest key d)) made'
      ∙ ap (stored_row codec) top
      ∙ stored_row-some codec row ms read

  -- The checkpoint database keeps the contract of a store, whichever of its queries fail: its stored
  -- history is that of the latest row, completed or not, a history can be stored if its encoding
  -- reads back as it, and the database is sound while its keys are valid and its rows readable.
  pub checkpoint_manager-IsStore :
      IsStore (checkpoint_manager codec fails now) (IsSound codec) (IsStorable codec) (stored codec)
  checkpoint_manager-IsStore = record {
    load_latest = λ key s sound. same_rows codec s _ sound refl refl;
    load_some = λ key s snap h. load_latest-some codec (fails s.calls) key s.db snap h;
    create_thread = λ key model s sound.
        let (a, b) = create_thread-rows (fails s.calls) now key model "{}" s.db in
        same_rows codec s _ sound a b;
    get_session_tokens = λ key s sound. same_rows codec s _ sound refl refl;
    update_session_tokens = λ key tokens at s sound.
        let (a, b) = update_session_tokens-rows codec (fails s.calls) key tokens at s.db in
        same_rows codec s _ sound a b;
    save_err = λ key it ms s e sound bad.
        let same = save_db key it ms s e bad in
        same_rows codec s _ sound (ap (λ d. d.checkpoints) same) (ap (λ d. d.next_id) same);
    save_refused = λ key it ms s sound refused.
        let (_, _, never, _, _, _) =
          save_snapshot-ok codec (fails s.calls) now key it ms s.db false refused in
        absurd (ground arith);
    save_other = save_other;
    save_sound = save_sound;
    save_ok = save_ok;
  }
