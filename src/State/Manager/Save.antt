-- ===== src/State/Manager/Save.antt =====
-- SaveCheckpoint: what is loaded after it, when it succeeds, when a write fails, and when the
-- journal could not be removed.
use Prim.Native.String.{◌++◌ as str_append}
use gobot.Prelude.{
  ◌≡◌, refl, ◌≢◌, inl, inr, true, none, some, [], String, str_eq, eq_iff, arith, Bool-cases,
  if◌then◌else◌,
}
use gobot.Prelude.Int.{ℤ, pos, add64}
use gobot.State.Types.{WorkflowState, Codec, Err, ok, err}
use gobot.State.Atomic.Laws.{NoneFails, write_json-cases, write_json-ok}
use gobot.State.Journal.{decode_lines, scan, apply_entries}
use gobot.State.Manager.{Disk, Io, put, save_checkpoint, load_workflow, load_with_recovery}
use gobot.State.Manager.Loading.{load-intro}
use gobot.State.Manager.Update.{load-same}

-- The state that a save writes.
abbrev pub bumped : ℤ → WorkflowState → WorkflowState
bumped now s = record s { updated_at = now; version = add64 s.version (pos 1) }

-- The lock is acquired, no call of the write but the deferred os.Remove fails, and the text written
-- reads back.
pub record Saves (codec : Codec) (io : Io) (s : WorkflowState) (text : String) : Type 0 where
  pub locked : io.locks ≡ true
  pub writes : NoneFails io.fails
  pub encoded : codec.encode_state s ≡ some text
  pub decoded : codec.decode_state (str_append text "\n") ≡ some s

pub save_checkpoint-ok :
    (codec : Codec) (io : Io) (now : ℤ) (s : WorkflowState) (text : String) (d : Disk)
    → Saves codec io (bumped now s) text
    → let d' = record d { checkpoint = put d.checkpoint s.id (some (str_append text "\n")) } in
      save_checkpoint codec io now s d ≡ (
        ok tt,
        bumped now s,
        if io.removes then record d' { journal = put d.journal s.id none } else d',
      )
unfolding save_checkpoint
save_checkpoint-ok codec io now s text d v =
    let w = write_json-ok io.fails io.part text (d.checkpoint s.id) v.writes in
    simp (v.encoded, w, v.locked)

pub load_workflow-text :
    (codec : Codec) (id text : String) (d : Disk) (s : WorkflowState)
    → d.checkpoint id ≡ some text
    → codec.decode_state text ≡ some s
    → load_workflow codec id d ≡ ok s
unfolding load_workflow
load_workflow-text codec id text d s h k = ground arith

-- Where the lock is acquired, no call of the write but the deferred os.Remove fails, the text
-- written reads back and the journal is removed, a save succeeds, the workflow then loads to exactly the state that the
-- caller holds, one version on, and every other workflow loads as before.
pub save_checkpoint-load :
    (codec : Codec) (io : Io) (now : ℤ) (s : WorkflowState) (text : String) (d : Disk)
    → Saves codec io (bumped now s) text
    → io.removes ≡ true
    → let out = save_checkpoint codec io now s d in
      (out.0 ≡ ok tt)
      × (out.1 ≡ bumped now s)
      × (load_with_recovery codec s.id out.2 ≡ ok (bumped now s))
      × ((j : String) → j ≢ s.id → load_with_recovery codec j out.2 ≡ load_with_recovery codec j d)
save_checkpoint-load codec io now s text d v removed =
    let e = save_checkpoint-ok codec io now s text d v in
    let d' = record d {
      checkpoint = put d.checkpoint s.id (some (str_append text "\n"));
      journal = put d.journal s.id none;
    } in
    let self : str_eq s.id s.id ≡ true = ground (arith, eq_iff s.id s.id) in
    let blank : d'.journal s.id ≡ none = rw self in
    (
      rw e,
      rw e,
      rw (e, removed)
          (load-intro codec s.id d' (bumped now s) (bumped now s) []
            (load_workflow-text codec s.id (str_append text "\n") d' (bumped now s) (rw self)
              v.decoded)
            (rw blank (unfold decode_lines scan in refl)) (unfold apply_entries in refl)),
      λ j ne.
          rw (e, removed)
            (load-same codec j d' d (ground (arith, eq_iff j s.id))
              (ground (arith, eq_iff j s.id))),
    )

-- A save that returns an error leaves what every workflow loads to.
pub save_checkpoint-err :
    (codec : Codec) (io : Io) (now : ℤ) (s : WorkflowState) (d : Disk) (x : Err) (j : String)
    → (save_checkpoint codec io now s d).0 ≡ err x
    → load_with_recovery codec j (save_checkpoint codec io now s d).2 ≡ load_with_recovery codec j d
unfolding save_checkpoint
save_checkpoint-err codec io now s d x j h = elim (Bool-cases io.locks) [
  | inr busy ↦ ground arith
  | inl locked ↦
      elim (write_json-cases io.fails io.part (codec.encode_state (bumped now s))
        (d.checkpoint s.id)) [
          | inl (text, _, r, _) ↦ absurd (ground arith)
          | inr (e, r, t) ↦ load-same codec j _ d (ground (arith, eq_iff j s.id)) (ground arith)
        ]
]
