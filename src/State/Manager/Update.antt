-- ===== src/State/Manager/Update.antt =====
-- UpdateStatus: what is loaded after it.
use text.Mathlib.TextLemmas.{nil-append}
use Prim.Native.String.{len}
use gobot.Prelude.{
  ◌<◌, ◌≡◌, refl, ap, ◌∙◌, ◌≢◌, inl, inr, true, none, some, [], ◌∷◌, ◌++◌, String, eq_iff, arith,
  Option-cases,
}
use gobot.Prelude.Int.{ℤ}
use gobot.State.Types.{Status, WorkflowState, JournalEntry, Codec, ok}
use gobot.State.Journal.{
  JournalFile, AppendIo, max_scan_token_size, write_line, scan, apply_entries,
}
use gobot.State.Manager.{Disk, put, load_workflow, load_with_recovery, update_status}
use gobot.State.Manager.Loading.{
  decode_lines-append, apply_entries-append, journal_of, load-ok, load-intro,
}

-- The entry that UpdateStatus appends.
abbrev pub status_entry : Codec → ℤ → Status → JournalEntry
status_entry codec now status = record {
  timestamp = now;
  operation = "status_change";
  payload = codec.status_payload status;
}

-- The entry as it is read back: encoding/json writes a raw payload without its spaces.
abbrev pub read_entry : Codec → ℤ → Status → String → JournalEntry
read_entry codec now status compact = record (status_entry codec now status) { payload = compact }

-- The codec reads back the journal line of a status change up to the spaces of its payload, from
-- which the status is read, and the line fits the scanner's buffer.
pub record Reads (codec : Codec) (now : ℤ) (status : Status) (line compact : String) : Type 0 where
  pub encoded : codec.encode_entry (status_entry codec now status) ≡ some line
  pub decoded : codec.decode_entry line ≡ some (read_entry codec now status compact)
  pub fits : len line < max_scan_token_size
  pub payload : codec.decode_status compact ≡ some status

-- Every call of the append succeeds.
pub record Appends (io : AppendIo) : Type 0 where
  pub opened : io.opens ≡ true
  pub whole : io.torn ≡ none
  pub synced : io.syncs ≡ true

-- The updates succeed: the new disk is known.
update_status-ok :
    (codec : Codec) (io : AppendIo) (now : ℤ) (id : String) (status : Status)
    (line compact : String) (d : Disk)
    → Appends io
    → Reads codec now status line compact
    → update_status codec io now id status d ≡ (
      ok tt,
      record d { journal = put d.journal id (some (write_line line (journal_of (d.journal id)))) },
    )
unfolding update_status
update_status-ok codec io now id status line compact d a r = elim (Option-cases (d.journal id)) [
  | inl missing ↦ ground arith
  | inr (file, found) ↦ ground arith
]

write_line_whole :
    (line : String) (f : JournalFile)
    → f.tail ≡ ""
    → write_line line f ≡ record { lines = f.lines ++ line ∷ []; tail = "" }
unfolding write_line
write_line_whole line f e =
    ap (λ t. record { lines = f.lines ++ t ∷ []; tail = "" }) (rw e (nil-append line))

scan_whole : (f : JournalFile) → f.tail ≡ "" → scan f ≡ f.lines
unfolding scan
scan_whole f e = ground (arith, eq_iff f.tail "")

apply_status :
    (codec : Codec) (now : ℤ) (status : Status) (line compact : String) (s : WorkflowState)
    → Reads codec now status line compact
    → apply_entries codec s (read_entry codec now status compact ∷ [])
      ≡ ok (record s { status = status; updated_at = now })
unfolding apply_entries
apply_status codec now status line compact s r = rw r.payload

load_workflow-checkpoint :
    (codec : Codec) (id : String) (d e : Disk)
    → d.checkpoint id ≡ e.checkpoint id
    → load_workflow codec id d ≡ load_workflow codec id e
unfolding load_workflow
load_workflow-checkpoint codec id d e h = ground arith

pub load-same :
    (codec : Codec) (id : String) (d e : Disk)
    → d.checkpoint id ≡ e.checkpoint id
    → d.journal id ≡ e.journal id
    → load_with_recovery codec id d ≡ load_with_recovery codec id e
unfolding load_with_recovery
load-same codec id d e h k = ground (arith, load_workflow-checkpoint codec id d e h)

load-after_line :
    (codec : Codec) (now : ℤ) (id : String) (status : Status) (line compact : String) (d : Disk)
    (s : WorkflowState)
    → Reads codec now status line compact
    → (journal_of (d.journal id)).tail ≡ ""
    → load_with_recovery codec id d ≡ ok s
    → load_with_recovery codec id (record d {
      journal = put d.journal id (some (write_line line (journal_of (d.journal id))));
    })
      ≡ ok (record s { status = status; updated_at = now })
load-after_line codec now id status line compact d s r whole loaded =
    let f = journal_of (d.journal id) in
    let d' = record d { journal = put d.journal id (some (write_line line f)) } in
    let (c, es, q, dec, app) = load-ok codec id d s loaded in
    let entry = read_entry codec now status compact in
    let here : d'.journal id ≡ some (write_line line f) = ground (arith, eq_iff id id) in
    let lines : scan (journal_of (d'.journal id)) ≡ f.lines ++ line ∷ [] =
      rw (here, write_line_whole line f whole) (scan_whole _ refl) in
    load-intro codec id d' c (record s { status = status; updated_at = now }) (es ++ entry ∷ [])
      (load_workflow-checkpoint codec id d' d refl ∙ q)
      (rw lines (
        decode_lines-append codec f.lines line es entry (rw (scan_whole f whole) at dec)
          (ground arith) r.decoded))
      (apply_entries-append codec c s es entry app ∙ apply_status codec now status line compact s r)

-- Where the workflow loads, its journal has no torn line, no call of the append fails and the
-- entry's line reads back, up to the spaces of its payload, a status update succeeds, sets the status and the time that the
-- workflow loads with, leaves the rest of it, and leaves what every other workflow loads to.
pub update_status-load :
    (codec : Codec) (io : AppendIo) (now : ℤ) (id : String) (status : Status)
    (line compact : String) (d : Disk) (s : WorkflowState)
    → Appends io
    → Reads codec now status line compact
    → (journal_of (d.journal id)).tail ≡ ""
    → load_with_recovery codec id d ≡ ok s
    → let out = update_status codec io now id status d in
      (out.0 ≡ ok tt)
      × (load_with_recovery codec id out.1 ≡ ok (record s { status = status; updated_at = now }))
      × ((j : String) → j ≢ id → load_with_recovery codec j out.1 ≡ load_with_recovery codec j d)
update_status-load codec io now id status line compact d s a r whole loaded =
    let e = update_status-ok codec io now id status line compact d a r in
    (
      rw e refl,
      rw e (load-after_line codec now id status line compact d s r whole loaded),
      λ j ne. rw e (load-same codec j _ d refl (other j ne)),
    )
  where
    other :
        (j : String)
        → j ≢ id
        → put d.journal id (some (write_line line (journal_of (d.journal id)))) j ≡ d.journal j
    other j ne = ground (arith, eq_iff j id)
