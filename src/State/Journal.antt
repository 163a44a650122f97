-- ===== src/State/Journal.antt =====
-- internal/state/journal.go: the append-only log of a workflow.
use Prim.Native.String.{◌++◌ as str_append, len}
use gobot.Prelude.{
  ℕ, Bool, Option, none, some, List, [], ◌∷◌, ◌++◌, String, str_eq, leb, if◌then◌else◌,
}
use gobot.State.Types.{
  WorkflowState, JournalEntry, Codec, os_error, json_error, too_long, wrapped, Result, ok, err,
}

-- The lines of the file that end in a newline, and what follows the last of them.
pub record JournalFile : Type 0 where
  pub lines : List String
  pub tail : String

abbrev pub empty_journal : JournalFile
empty_journal = record { lines = []; tail = "" }

-- What the system does with one append: opening, the write (with the part of the line that reached
-- the file where it fails) and the sync.
pub record AppendIo : Type 0 where
  pub opens : Bool
  pub torn : Option String
  pub syncs : Bool

-- A write of a whole line goes on where the file ends.
unfoldable pub write_line : String → JournalFile → JournalFile
write_line line f = record { lines = f.lines ++ str_append f.tail line ∷ []; tail = "" }

-- OpenJournal: opens the file for append and creates it if it is missing.
unfoldable pub open_journal : AppendIo → Option JournalFile → Result JournalFile
open_journal io file =
    if io.opens
    then ok (elim file [ none ↦ empty_journal | some f ↦ f ])
    else err (wrapped "opening journal file" os_error)

-- (*Journal).Append.
unfoldable pub append :
    Codec → AppendIo → JournalEntry → JournalFile → Result (Unit {0}) × JournalFile
unfolding write_line
append codec io entry f = elim (codec.encode_entry entry) [
  | none ↦ (err (wrapped "marshaling journal entry" json_error), f)
  | some line ↦ elim io.torn [
    | some part ↦
        (err (wrapped "writing journal entry" os_error), record f { tail = str_append f.tail part })
    | none ↦
        if io.syncs
        then (ok tt, write_line line f)
        else (err (wrapped "syncing journal" os_error), write_line line f)
  ]
]

-- bufio.Scanner gives up at a line that does not fit its buffer.
abbrev pub max_scan_token_size : ℕ
max_scan_token_size = 65536

-- The loop of Replay over the scanned lines.
unfoldable pub decode_lines : Codec → List String → Result (List JournalEntry)
decode_lines codec [] = ok []
decode_lines codec (line ∷ lines) =
    let rest = decode_lines codec lines in
    if leb max_scan_token_size (len line)
    then err (wrapped "scanning journal" too_long)
    else elim (codec.decode_entry line) [
      | none ↦ err (wrapped "decoding journal" json_error)
      | some entry ↦ elim rest [ err e ↦ err e | ok entries ↦ ok (entry ∷ entries) ]
    ]

-- The lines that the scanner sees: a last line needs no newline.
unfoldable pub scan : JournalFile → List String
scan f = if str_eq f.tail "" then f.lines else f.lines ++ f.tail ∷ []

unfoldable pub replay : Codec → Option JournalFile → Result (List JournalEntry)
unfolding decode_lines scan
replay codec none = ok []
replay codec (some f) = decode_lines codec (scan f)

unfoldable pub apply_entry : Codec → WorkflowState → JournalEntry → Result WorkflowState
apply_entry codec s entry =
    if str_eq entry.operation "status_change"
    then elim (codec.decode_status entry.payload) [
      | none ↦ err (wrapped "unmarshal status_change payload" json_error)
      | some status ↦ ok (record s { status = status; updated_at = entry.timestamp })
    ]
    else if str_eq entry.operation "data_update"
    then ok (record s { data_json = entry.payload; updated_at = entry.timestamp })
    else ok s

unfoldable pub apply_entries : Codec → WorkflowState → List JournalEntry → Result WorkflowState
unfolding apply_entry
apply_entries codec s [] = ok s
apply_entries codec s (entry ∷ entries) = elim (apply_entry codec s entry) [
  | err e ↦ err (wrapped "applying entry" e)
  | ok s' ↦ apply_entries codec s' entries
]

unfoldable pub recover_workflow : Codec → Option JournalFile → WorkflowState → Result WorkflowState
unfolding replay apply_entries
recover_workflow codec file s = elim (replay codec file) [
  | err e ↦ err (wrapped "replaying journal" e)
  | ok entries ↦ apply_entries codec s entries
]
