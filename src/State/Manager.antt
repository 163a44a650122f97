-- ===== src/State/Manager.antt =====
-- internal/state/manager.go: the state directory and the operations of the manager.
pub mod Loading
pub mod Update
pub mod Save
pub mod Replay
pub mod Archive
use gobot.Prelude.{
  ℕ, Bool, true, false, not, Option, none, some, List, [], ◌∷◌, String, str_eq, if◌then◌else◌,
}
use gobot.Prelude.Int.{ℤ, pos, add64}
use gobot.State.Types.{
  Status, pending, WorkflowState, JournalEntry, Codec, Err, not_exist, wrapped, plain, Result, ok,
  err, is_not_exist,
}
use gobot.State.Atomic.{Call, Slot, write_file_json, read_file_json}
use gobot.State.Journal.{JournalFile, AppendIo, open_journal, append, recover_workflow}

-- The files of the state directory by workflow: workflows/{id}/checkpoint.json,
-- workflows/{id}.journal and archived/{id}.json.
pub record Disk : Type 0 where
  pub checkpoint : String → Option String
  pub journal : String → Option JournalFile
  pub archived : String → Option String

-- A map with one key written.
abbrev pub put {ℓ} : {A : Type ℓ} → (String → A) → String → A → String → A
put f k v j = if str_eq j k then v else f j

-- What the system does with the calls of one operation: whether the lock was acquired in time,
-- which call of an atomic write fails, what a failed write leaves in the temporary file, and
-- whether a file is removed.
pub record Io : Type 0 where
  pub locks : Bool
  pub fails : Call → Bool
  pub part : String
  pub removes : Bool

abbrev pub timeout : String → Err
timeout id = plain "timeout acquiring lock for workflow"

abbrev pub slot : Option String → Slot
slot file = record { target = file; temp = none }

-- SaveCheckpoint changes the state that it is given before it writes: the second result is the
-- state that the caller is left with.
unfoldable pub save_checkpoint :
    Codec → Io → ℤ → WorkflowState → Disk → Result (Unit {0}) × WorkflowState × Disk
unfolding write_file_json
save_checkpoint codec io now s d =
    let s' = record s { updated_at = now; version = add64 s.version (pos 1) } in
    let (written, file) =
      write_file_json io.fails io.part (codec.encode_state s') (slot (d.checkpoint s.id)) in
    let d' = record d { checkpoint = put d.checkpoint s.id file.target } in
    if not io.locks then (err (wrapped "acquiring lock" (timeout s.id)), s, d) else elim written [
      | err e ↦ (err (wrapped "writing checkpoint" e), s', d')
      | ok _ ↦
          (ok tt, s', if io.removes then record d' { journal = put d.journal s.id none } else d')
    ]

pub create_workflow : Codec → Io → ℤ → String → String → Disk → Result WorkflowState × Disk
unfolding save_checkpoint
create_workflow codec io now id initial_data d =
    let s : WorkflowState = record {
      id = id;
      status = pending;
      version = pos 1;
      created_at = now;
      updated_at = now;
      data_json = initial_data;
    } in
    let (saved, s', d') = save_checkpoint codec io now s d in
    elim saved [ err e ↦ (err (wrapped "saving initial checkpoint" e), d') | ok _ ↦ (ok s', d') ]

unfoldable pub load_workflow : Codec → String → Disk → Result WorkflowState
unfolding read_file_json is_not_exist
load_workflow codec id d = elim (read_file_json codec.decode_state (d.checkpoint id)) [
  | ok s ↦ ok s
  | err e ↦
      if is_not_exist e
      then err (plain "workflow not found")
      else err (wrapped "reading checkpoint" e)
]

unfoldable pub load_with_recovery : Codec → String → Disk → Result WorkflowState
unfolding load_workflow recover_workflow
load_with_recovery codec id d = elim (load_workflow codec id d) [
  | err e ↦ err e
  | ok s ↦ elim (d.journal id) [
    | none ↦ ok s
    | some file ↦ elim (recover_workflow codec (some file) s) [
      | err e ↦ err (wrapped "recovery failed" e)
      | ok s' ↦ ok s'
    ]
  ]
]

unfoldable pub update_status :
    Codec → AppendIo → ℤ → String → Status → Disk → Result (Unit {0}) × Disk
unfolding open_journal append
update_status codec io now id status d = elim (open_journal io (d.journal id)) [
  | err e ↦ (err (wrapped "opening journal" e), d)
  | ok file ↦
      let entry : JournalEntry = record {
        timestamp = now;
        operation = "status_change";
        payload = codec.status_payload status;
      } in
      let (appended, file') = append codec io entry file in
      let d' = record d { journal = put d.journal id (some file') } in
      elim appended [ err e ↦ (err (wrapped "appending to journal" e), d') | ok _ ↦ (ok tt, d') ]
]

unfoldable pub archive : Codec → Io → String → Disk → Result (Unit {0}) × Disk
unfolding load_with_recovery write_file_json
archive codec io id d =
    if not io.locks
    then (err (wrapped "acquiring lock" (timeout id)), d)
    else elim (load_with_recovery codec id d) [
      | err e ↦ (err (wrapped "loading workflow for archive" e), d)
      | ok s ↦
          let (written, file) =
            write_file_json io.fails io.part (codec.encode_state s) (slot (d.archived id)) in
          let d' = record d { archived = put d.archived id file.target } in
          elim written [
            | err e ↦ (err (wrapped "writing workflow archive" e), d')
            | ok _ ↦ (
              ok tt,
              if io.removes
                  then record d' {
                    journal = put d.journal id none;
                    checkpoint = put d.checkpoint id none;
                  }
                  else d',
            )
          ]
    ]
