-- ===== src/State/Manager/Replay.antt =====
-- SaveCheckpoint where the journal is not removed.
use Prim.Native.String.{◌++◌ as str_append}
use gobot.Prelude.{
  ◌≡◌, refl, ◌∙◌, ◌⊎◌, inl, inr, true, false, some, List, [], ◌∷◌, String, str_eq, eq_iff, arith,
  Bool-cases, Option-cases,
}
use gobot.Prelude.Int.{ℤ}
use gobot.State.Types.{WorkflowState, JournalEntry, Codec, ok, Result-cases}
use gobot.State.Journal.{decode_lines, scan, apply_entry, apply_entries}
use gobot.State.Manager.{Disk, Io, put, save_checkpoint, load_with_recovery}
use gobot.State.Manager.Loading.{load-ok, load-intro, journal_of}
use gobot.State.Manager.Save.{Saves, bumped, save_checkpoint-ok, load_workflow-text}

-- No entry replaces the data.
abbrev pub NoDataUpdate : List JournalEntry → Type 0
NoDataUpdate [] = Unit {0}
NoDataUpdate (e ∷ es) = (str_eq e.operation "data_update" ≡ false) × NoDataUpdate es

-- Where an entry takes `c` to `s`, it takes `c'` to a state with the same new status, or with the
-- status of each kept.
entry_again :
    (codec : Codec) (c c' s : WorkflowState) (e : JournalEntry)
    → apply_entry codec c e ≡ ok s
    → str_eq e.operation "data_update" ≡ false
    → (t : WorkflowState) × (apply_entry codec c' e ≡ ok t)
      × (t.version ≡ c'.version)
      × (t.data_json ≡ c'.data_json)
      × ((t.status ≡ s.status) ⊎ ((s.status ≡ c.status) × (t.status ≡ c'.status)))
unfolding apply_entry
entry_again codec c c' s e h nd = elim (Bool-cases (str_eq e.operation "status_change")) [
  | inr other ↦ (c', ground arith, refl, refl, inr (ground arith, refl))
  | inl change ↦ elim (Option-cases (codec.decode_status e.payload)) [
    | inl bad ↦ absurd (ground arith)
    | inr (st, good) ↦ (
      record c' { status = st; updated_at = e.timestamp },
      ground arith,
      refl,
      refl,
      inl (ground arith),
    )
  ]
]

entries_again :
    (codec : Codec) (c c' s : WorkflowState) (es : List JournalEntry)
    → apply_entries codec c es ≡ ok s
    → NoDataUpdate es
    → (t : WorkflowState) × (apply_entries codec c' es ≡ ok t)
      × (t.version ≡ c'.version)
      × (t.data_json ≡ c'.data_json)
      × ((t.status ≡ s.status) ⊎ ((s.status ≡ c.status) × (t.status ≡ c'.status)))
unfolding apply_entries
entries_again codec c c' s [] h nd = (c', refl, refl, refl, inr (ground arith, refl))
entries_again codec c c' s (e ∷ es) h nd = elim (Result-cases (apply_entry codec c e)) [
  | inr (x, bad) ↦ absurd (ground arith)
  | inl (s1, q) ↦
      let (t1, q1, v1, d1, st1) = entry_again codec c c' s1 e q nd.0 in
      let (t, q2, v2, d2, st2) = entries_again codec s1 t1 s es (ground arith) nd.1 in
      (t, ground arith, v2 ∙ v1, d2 ∙ d1, ground arith)
]

-- A save whose journal could not be removed succeeds, and a state that was loaded with recovery
-- and saved with new data is loaded again with its status, the new data and the new version, if
-- the journal left behind holds no data update and the text written reads back.
pub save_checkpoint-journal_left :
    (codec : Codec) (io : Io) (now : ℤ) (s : WorkflowState) (new_data text : String) (d : Disk)
    (es : List JournalEntry)
    → load_with_recovery codec s.id d ≡ ok s
    → decode_lines codec (scan (journal_of (d.journal s.id))) ≡ ok es
    → NoDataUpdate es
    → Saves codec io (bumped now (record s { data_json = new_data })) text
    → io.removes ≡ false
    → let out = save_checkpoint codec io now (record s { data_json = new_data }) d in
      (out.0 ≡ ok tt)
      × ((t : WorkflowState) × (load_with_recovery codec s.id out.2 ≡ ok t)
          × (t.status ≡ s.status)
          × (t.data_json ≡ new_data)
          × (t.version ≡ (bumped now s).version))
save_checkpoint-journal_left codec io now s new_data text d es loaded dec nd v left =
    let s' = record s { data_json = new_data } in
    let e = save_checkpoint-ok codec io now s' text d v in
    let d' = record d { checkpoint = put d.checkpoint s.id (some (str_append text "\n")) } in
    let (c, es', q, dec', app) = load-ok codec s.id d s loaded in
    let same : es' ≡ es = ground arith in
    let app' : apply_entries codec c es ≡ ok s = rw (← same) app in
    let (t, app'', ver, dat, st) = entries_again codec c (bumped now s') s es app' nd in
    let self : str_eq s.id s.id ≡ true = ground (arith, eq_iff s.id s.id) in
    (
      rw e,
      (
        t,
        rw (e, left)
            (load-intro codec s.id d' (bumped now s') t es
              (load_workflow-text codec s.id (str_append text "\n") d' (bumped now s') (rw self)
                v.decoded)
              dec app''),
        ground arith,
        dat,
        ver,
      ),
    )
