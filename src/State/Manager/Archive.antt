-- ===== src/State/Manager/Archive.antt =====
-- Archive: the archived file and what is loaded after it.
use Prim.Native.String.{◌++◌ as str_append}
use gobot.Prelude.{
  ◌≡◌, ◌≢◌, inl, inr, true, false, none, some, String, str_eq, eq_iff, arith, Bool-cases,
}
use gobot.State.Types.{WorkflowState, Codec, Err, not_exist, wrapped, ok, err, Result-cases}
use gobot.State.Atomic.Laws.{write_json-cases, write_json-ok}
use gobot.State.Manager.{Disk, Io, put, archive, load_with_recovery}
use gobot.State.Manager.Loading.{load_workflow-missing}
use gobot.State.Manager.Update.{load-same}
use gobot.State.Manager.Save.{Saves}

load-missing :
    (codec : Codec) (id : String) (d : Disk)
    → d.checkpoint id ≡ none
    → load_with_recovery codec id d
      ≡ err (wrapped "reading checkpoint" (wrapped "reading file" not_exist))
unfolding load_with_recovery
load-missing codec id d h = ground (arith, (load_workflow-missing codec id d h).0)

archive-result :
    (codec : Codec) (io : Io) (id text : String) (d : Disk) (s : WorkflowState)
    → load_with_recovery codec id d ≡ ok s
    → Saves codec io s text
    → io.removes ≡ true
    → archive codec io id d ≡ (
      ok tt,
      record d {
        archived = put d.archived id (some (str_append text "\n"));
        journal = put d.journal id none;
        checkpoint = put d.checkpoint id none;
      },
    )
unfolding archive
archive-result codec io id text d s loaded v removed =
    let w = write_json-ok io.fails io.part text (d.archived id) v.writes in
    simp (loaded, v.encoded, w, v.locked, removed)

-- Where the workflow loads, the lock is acquired, no call of the write but the deferred os.Remove
-- fails, the text written reads back and the files are removed, an archive succeeds and writes the state that the workflow
-- loads to, journal included; the workflow is then gone, and every other one loads as before with
-- its archive unchanged.
pub archive-load :
    (codec : Codec) (io : Io) (id text : String) (d : Disk) (s : WorkflowState)
    → load_with_recovery codec id d ≡ ok s
    → Saves codec io s text
    → io.removes ≡ true
    → let out = archive codec io id d in
      (out.0 ≡ ok tt)
      × ((file : String) × (out.1.archived id ≡ some file) × (codec.decode_state file ≡ some s))
      × (load_with_recovery codec id out.1
          ≡ err (wrapped "reading checkpoint" (wrapped "reading file" not_exist)))
      × ((j : String)
          → j ≢ id
          → (load_with_recovery codec j out.1 ≡ load_with_recovery codec j d)
            × (out.1.archived j ≡ d.archived j))
archive-load codec io id text d s loaded v removed =
    let e = archive-result codec io id text d s loaded v removed in
    let self : str_eq id id ≡ true = ground (arith, eq_iff id id) in
    (
      rw e,
      (str_append text "\n", rw (e, self), v.decoded),
      rw e (load-missing codec id _ (rw self)),
      λ j ne.
          let off : str_eq j id ≡ false = ground (arith, eq_iff j id) in
          (rw e (load-same codec j _ d (rw off) (rw off)), rw (e, off)),
    )

-- An archive that returns an error, for a lock, for a journal that does not replay or for a
-- failed write, leaves what every workflow loads to and every archived file.
pub archive-err :
    (codec : Codec) (io : Io) (id : String) (d : Disk) (x : Err) (j : String)
    → (archive codec io id d).0 ≡ err x
    → (load_with_recovery codec j (archive codec io id d).1 ≡ load_with_recovery codec j d)
      × ((archive codec io id d).1.archived j ≡ d.archived j)
unfolding archive
archive-err codec io id d x j h = elim (Bool-cases io.locks) [
  | inr busy ↦ (ground arith, ground arith)
  | inl locked ↦ elim (Result-cases (load_with_recovery codec id d)) [
    | inr (y, bad) ↦ (ground arith, ground arith)
    | inl (s, loaded) ↦
        elim (write_json-cases io.fails io.part (codec.encode_state s) (d.archived id)) [
          | inl (text, _, r, _) ↦ absurd (ground arith)
          | inr (e, r, t) ↦ (
            load-same codec j (archive codec io id d).1 d (ground arith) (ground arith),
            ground (arith, eq_iff j id),
          )
        ]
  ]
]
