-- ===== src/State/Manager/Loading.antt =====
-- LoadWorkflow and LoadWithRecovery: when they succeed, and a missing checkpoint.
use Prim.Native.String.{len}
use gobot.Prelude.{
  ◌≡◌, ap, ◌∙◌, ◌≢◌, inl, inr, false, Option, none, some, List, [], ◌∷◌, ◌++◌, String, arith, leb,
  Bool-cases, Option-cases,
}
use gobot.State.Types.{
  WorkflowState, JournalEntry, Codec, not_exist, wrapped, plain, ok, err, Result-cases,
}
use gobot.State.Journal.{
  JournalFile, max_scan_token_size, decode_lines, scan, replay, apply_entry, apply_entries,
  recover_workflow,
}
use gobot.State.Manager.{Disk, load_workflow, load_with_recovery}

-- A missing checkpoint is never reported as "workflow not found": ReadFileJSON wraps the error of
-- os.ReadFile, and os.IsNotExist does not unwrap.
pub load_workflow-missing :
    (codec : Codec) (id : String) (d : Disk)
    → d.checkpoint id ≡ none
    → (load_workflow codec id d
        ≡ err (wrapped "reading checkpoint" (wrapped "reading file" not_exist)))
      × (load_workflow codec id d ≢ err (plain "workflow not found"))
unfolding load_workflow
load_workflow-missing codec id d e = (ground arith, ground arith)

pub decode_lines-append :
    (codec : Codec) (ls : List String) (line : String) (es : List JournalEntry) (e : JournalEntry)
    → decode_lines codec ls ≡ ok es
    → leb max_scan_token_size (len line) ≡ false
    → codec.decode_entry line ≡ some e
    → decode_lines codec (ls ++ line ∷ []) ≡ ok (es ++ e ∷ [])
unfolding decode_lines
decode_lines-append codec [] line es e h short d = ground arith
decode_lines-append codec (l ∷ ls) line es e h short d =
    elim (Bool-cases (leb max_scan_token_size (len l))) [
      | inl long ↦ absurd (ground arith)
      | inr fits ↦ elim (Option-cases (codec.decode_entry l)) [
        | inl bad ↦ absurd (ground arith)
        | inr (e0, good) ↦ elim (Result-cases (decode_lines codec ls)) [
          | inr (x, bad) ↦ absurd (ground arith)
          | inl (es0, q) ↦
              let split : e0 ∷ es0 ≡ es = ground arith in
              rw (← split) (ground (arith, decode_lines-append codec ls line es0 e q short d))
        ]
      ]
    ]

pub apply_entries-append :
    (codec : Codec) (s t : WorkflowState) (es : List JournalEntry) (e : JournalEntry)
    → apply_entries codec s es ≡ ok t
    → apply_entries codec s (es ++ e ∷ []) ≡ apply_entries codec t (e ∷ [])
unfolding apply_entries
apply_entries-append codec s t [] e h =
    let same : s ≡ t = ground arith in ap (λ u. apply_entries codec u (e ∷ [])) same
apply_entries-append codec s t (x ∷ es) e h = elim (Result-cases (apply_entry codec s x)) [
  | inr (f, bad) ↦ absurd (ground arith)
  | inl (s', q) ↦ ground (arith, apply_entries-append codec s' t es e (ground arith))
]

recover-ok :
    (codec : Codec) (file : Option JournalFile) (s t : WorkflowState)
    → recover_workflow codec file s ≡ ok t
    → (es : List JournalEntry) × (replay codec file ≡ ok es) × (apply_entries codec s es ≡ ok t)
unfolding recover_workflow
recover-ok codec file s t h = elim (Result-cases (replay codec file)) [
  | inr (e, bad) ↦ absurd (ground arith)
  | inl (es, q) ↦ (es, q, ground arith)
]

-- A missing journal recovers like an empty one.
abbrev pub journal_of : Option JournalFile → JournalFile
journal_of none = record { lines = []; tail = "" }
journal_of (some f) = f

-- The checkpoint and the entries that a successful load went through.
pub load-ok :
    (codec : Codec) (id : String) (d : Disk) (t : WorkflowState)
    → load_with_recovery codec id d ≡ ok t
    → (s : WorkflowState) × (es : List JournalEntry) × (load_workflow codec id d ≡ ok s)
      × (decode_lines codec (scan (journal_of (d.journal id))) ≡ ok es)
      × (apply_entries codec s es ≡ ok t)
unfolding load_with_recovery
load-ok codec id d t h = elim (Result-cases (load_workflow codec id d)) [
  | inr (e, bad) ↦ absurd (ground arith)
  | inl (s, q) ↦ elim (Option-cases (d.journal id)) [
    | inl missing ↦ let same : s ≡ t = ground arith in (s, [], q, rw missing, ap ok same)
    | inr (file, found) ↦ elim (Result-cases (recover_workflow codec (some file) s)) [
      | inr (e, bad) ↦ absurd (ground arith)
      | inl (t', r) ↦
          let same : t' ≡ t = ground arith in
          let (es, replayed, applied) = recover-ok codec (some file) s t' r in
          (s, es, q, rw found replayed, applied ∙ ap ok same)
    ]
  ]
]

recover-intro :
    (codec : Codec) (file : JournalFile) (s t : WorkflowState) (es : List JournalEntry)
    → decode_lines codec (scan file) ≡ ok es
    → apply_entries codec s es ≡ ok t
    → recover_workflow codec (some file) s ≡ ok t
unfolding recover_workflow
recover-intro codec file s t es q a = ground arith

pub load-intro :
    (codec : Codec) (id : String) (d : Disk) (s t : WorkflowState) (es : List JournalEntry)
    → load_workflow codec id d ≡ ok s
    → decode_lines codec (scan (journal_of (d.journal id))) ≡ ok es
    → apply_entries codec s es ≡ ok t
    → load_with_recovery codec id d ≡ ok t
unfolding load_with_recovery
load-intro codec id d s t es q r a = elim (Option-cases (d.journal id)) [
  | inl missing ↦
      let none_left : es ≡ [] = let r' : ok [] ≡ ok es = rw missing at r in ground arith in
      let a' : apply_entries codec s [] ≡ ok t = rw none_left at a in ground arith
  | inr (file, found) ↦
      let r' : decode_lines codec (scan file) ≡ ok es = rw found at r in
      ground (arith, recover-intro codec file s t es r' a)
]
