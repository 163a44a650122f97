-- ===== src/Agent/Session/Durable.antt =====
-- The checkpoint database of internal/context/manager.go as a store of the session manager.
pub mod Contract
use gobot.Prelude.{
  ℕ, suc, ◌≡◌, ◌≢◌, ◌<◌, refl, ap, sym, ◌∙◌, subst, ◌⊎◌, inl, inr, Bool, true, false, Option, none,
  some, List, ◌∷◌, String, str_eq, eq_iff, In, In-filter, if◌then◌else◌, arith, Bool-cases,
  Option-cases,
}
use gobot.Prelude.Int.{ℤ, leb_ℤ, ◌≤ℤ◌}
use gobot.Prelude.Results.{Err, Result, ok, err}
use gobot.Agent.Message.{Message}
use gobot.Context.Checkpoints.{
  Checkpoint, Db, Codec, Query, ThreadSnapshot, latest, saved, save_snapshot, load_latest,
  create_thread, update_session_tokens, get_session_tokens, is_completed, checksum_agrees,
  with_thread, prune_checkpoints, of_thread, is_of, order_newest,
}
use gobot.Context.Checkpoints.Newest.{StartsWith, order_newest-In}
use gobot.Context.Checkpoints.Latest.{first-latest}
use gobot.Context.Checkpoints.Saving.{
  IsValid, Distinct, saved-IsValid, saved-checkpoints, new_row, prune-In,
}
use gobot.Context.Checkpoints.Saved.{
  Encodes, saved-latest, new_row-AtTop, saved-latest_other, latest-rows,
}
use gobot.Context.Checkpoints.Loading.{save_snapshot-err}
use gobot.Agent.Session.{CheckpointStore}
use gobot.Agent.Session.Laws.{Stored, Keeps, IsStore}

-- The database, and how many calls it has had.
pub record DbState : Type 0 where
  pub db : Db
  pub calls : ℕ

module _ (codec : Codec) (fails : ℕ → Query → Bool) (now : ℤ) where
  abbrev next : DbState → Db → DbState
  next s db = record { db = db; calls = suc s.calls }

  -- CreateThread is called with nil metadata, which it stores as "{}". `fails i` are the queries
  -- that fail in the `i`-th call.
  abbrev pub checkpoint_manager : CheckpointStore DbState
  checkpoint_manager = record {
    load_latest = λ key s. (load_latest codec (fails s.calls) key s.db, next s s.db);
    save_snapshot = λ key it ms s.
        let out = save_snapshot codec (fails s.calls) now key it ms s.db in (out.0, next s out.1);
    create_thread = λ key model s.
        let out = create_thread (fails s.calls) now key model "{}" s.db in (out.0, next s out.1);
    update_session_tokens = λ key tokens at s.
        let out = update_session_tokens codec (fails s.calls) key tokens at s.db in
        (out.0, next s out.1);
    get_session_tokens = λ key s. (get_session_tokens codec (fails s.calls) key s.db, next s s.db);
  }

-- The latest checkpoint of a thread, completed or not.
abbrev pub stored_row : Codec → Option Checkpoint → Stored
stored_row codec none = none
stored_row codec (some c) = elim (codec.unmarshal c.state) [
  | none ↦ none
  | some ms ↦ some (c.iteration, ms)
]

abbrev pub stored : Codec → String → DbState → Stored
stored codec key s = stored_row codec (latest key s.db)

-- The keys are valid, and every row reads back as messages.
pub record IsSound (codec : Codec) (s : DbState) : Type 0 where
  pub valid : IsValid s.db
  pub readable :
      (c : Checkpoint)
      → In c s.db.checkpoints
      → (ms : List Message) × (codec.unmarshal c.state ≡ some ms)

abbrev pub IsStorable : Codec → List Message → Type 0
IsStorable codec ms = (state : String) × Encodes codec ms state

pub save_snapshot-ok :
    (codec : Codec) (fails : Query → Bool) (now : ℤ) (id : String) (it : ℤ) (ms : List Message)
    (db : Db) (b : Bool)
    → (save_snapshot codec fails now id it ms db).0 ≡ ok b
    → (state : String) × (check : List Message) × (b ≡ true)
      × (codec.marshal ms ≡ some state)
      × (codec.unmarshal state ≡ some check)
      × ((save_snapshot codec fails now id it ms db).1 ≡ saved codec now id it state db)
unfolding save_snapshot
save_snapshot-ok codec fails now id it ms db b h = elim (Option-cases (codec.marshal ms)) [
  | inl bad ↦ absurd (ground arith)
  | inr (state, written) ↦ elim (Option-cases (codec.unmarshal state)) [
    | inl bad ↦ absurd (ground arith)
    | inr (check, read) ↦ (state, check, ground arith, written, read, ground arith)
  ]
]

-- The view and the soundness look at the rows alone.
pub same_rows :
    (codec : Codec) (s s' : DbState)
    → IsSound codec s
    → s'.db.checkpoints ≡ s.db.checkpoints
    → s'.db.next_id ≡ s.db.next_id
    → Keeps (IsSound codec) (stored codec) s s'
same_rows codec s s' sound rows next_id = (
  record {
    valid = record {
      below = λ c i.
          subst (λ n. c.checkpoint_id < n) (sym next_id)
            (sound.valid.below c (subst (In c) rows i));
      distinct = subst Distinct (sym rows) sound.valid.distinct;
    };
    readable = λ c i. sound.readable c (subst (In c) rows i);
  },
  λ j. ap (stored_row codec) (latest-rows j s'.db s.db (ap (of_thread j) rows)),
)

pub load_latest-some :
    (codec : Codec) (fails : Query → Bool) (key : String) (db : Db) (snap : ThreadSnapshot)
    → load_latest codec fails key db ≡ ok (some snap)
    → stored_row codec (latest key db) ≡ some (snap.iteration, snap.messages)
unfolding load_latest with_thread
load_latest-some codec fails key db snap h = elim (Option-cases (latest key db)) [
  | inl missing ↦ absurd (ground arith)
  | inr (c, found) ↦ elim (Option-cases (codec.unmarshal c.state)) [
    | inl bad ↦ absurd (ground arith)
    | inr (ms, read) ↦ ground arith
  ]
]

pub saved-sound :
    (codec : Codec) (now : ℤ) (key : String) (it : ℤ) (state : String) (check : List Message)
    (s s' : DbState)
    → IsSound codec s
    → codec.unmarshal state ≡ some check
    → s'.db ≡ saved codec now key it state s.db
    → IsSound codec s'
saved-sound codec now key it state check s s' sound read e =
    let db' = saved codec now key it state s.db in
    let rows = saved-checkpoints codec now key it state s.db in
    let row = new_row codec key it state s.db in
    let readable' : (c : Checkpoint)
        → In c db'.checkpoints
        → (ms : List Message) × (codec.unmarshal c.state ≡ some ms) =
      λ c i. elim (prune-In key c (row ∷ s.db.checkpoints) (subst (In c) rows i)) [
        | inl same ↦ (check, rw same read)
        | inr old ↦ sound.readable c old
      ] in
    record {
      valid = subst IsValid (sym e) (saved-IsValid codec now key it state s.db sound.valid);
      readable = λ c i. readable' c (subst (λ d. In c d.checkpoints) e i);
    }

pub stored_row-some :
    (codec : Codec) (c : Checkpoint) (ms : List Message)
    → codec.unmarshal c.state ≡ some ms
    → stored_row codec (some c) ≡ some (c.iteration, ms)
stored_row-some codec c ms read = rw (stored_row, read) refl

-- The latest row of a thread is one of the rows, so that it reads back.
pub latest-stored :
    (codec : Codec) (key : String) (s : DbState) (c : Checkpoint)
    → IsSound codec s
    → latest key s.db ≡ some c
    → (ms : List Message) × (stored codec key s ≡ some (c.iteration, ms))
latest-stored codec key s c sound h =
    let (ds, first) = first-latest key s.db c h in
    let own =
      order_newest-In c (of_thread key s.db.checkpoints) (subst (In c) (sym first) (inl refl)) in
    let (ms, read) = sound.readable c (In-filter (is_of key) c s.db.checkpoints own).0 in
    (ms, ap (stored_row codec) h ∙ stored_row-some codec c ms read)
