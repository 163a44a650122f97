-- ===== src/Agent/Compaction/Pairing.antt =====
-- CompactMessages: tool calls and their responses.
use gobot.Prelude.{
  ℕ, ◌≡◌, ◌⊎◌, inl, inr, ◌≢◌, true, ◌||◌, List, String, arith, length, In, In-get_elem?, Bool-cases,
  leb, ◌∙◌, subst,
}
use gobot.Prelude.Int.{ℤ, pos, pos_part, leb_ℤ}
use gobot.Agent.Message.{Message}
use gobot.Agent.Compaction.{
  Pruning, Compacted, select, strip_leading_assistant_turns, clamp_keep, keep_marks,
  compact_messages,
}
use gobot.Agent.Compaction.Chain.{answers}
use gobot.Agent.Compaction.Chain.Pairs.{calls, answers-not_assistant}
use gobot.Agent.Compaction.Chain.Closed.{length-consistency, responses_kept, call_kept}
use gobot.Agent.Compaction.Select.{
  marks_before, length-marks_before, select-In, In-select, strip-Strips, Strips, In-any_answers,
  any_answered_complete,
}

pub length-keep_marks : (ms : List Message) (k : ℕ) (n : ℤ) → length (keep_marks ms k n) ≡ length ms
unfolding keep_marks
length-keep_marks ms k n = length-consistency ms (marks_before ms k n) ∙ length-marks_before ms k n

-- No message is lost, or the stripped selection of the computed marks is returned.
abbrev pub Outcome : List Message → ℤ → ℤ → Pruning → Compacted → Type 0
Outcome ms max_n keep_n p out =
    (out.messages ≡ ms)
    ⊎ ((out.keep
          ≡ keep_marks ms (clamp_keep (pos_part max_n) (pos_part keep_n)) p.keep_last_assistants)
        × (out.messages ≡ strip_leading_assistant_turns (select ms out.keep)))

pub compact-Outcome :
    (ms : List Message) (max_n keep_n : ℤ) (p : Pruning)
    → Outcome ms max_n keep_n p (compact_messages ms max_n keep_n p)
unfolding compact_messages
compact-Outcome ms max_n keep_n p =
    elim (Bool-cases (leb_ℤ max_n (pos 0) || leb_ℤ keep_n (pos 0))) [
      | inl invalid ↦ inl (rw invalid)
      | inr valid ↦ elim (Bool-cases (leb (length ms) (pos_part max_n))) [
        | inl short ↦ inl (rw (valid, short))
        | inr long ↦ inr (rw (valid, long), rw (valid, long))
      ]
    ]

selected_responses :
    (ms : List Message) (k : ℕ) (n : ℤ) (m r : Message) (id : String)
    → id ≢ ""
    → In m (select ms (keep_marks ms k n))
    → calls id m ≡ true
    → In r ms
    → answers id r ≡ true
    → In r (select ms (keep_marks ms k n))
unfolding keep_marks
selected_responses ms k n m r id ne hm cl hr a =
    let (c, em, kc) = In-select ms (keep_marks ms k n) m hm in
    let (j, er) = In-get_elem? r ms hr in
    select-In ms (keep_marks ms k n) j er (
      responses_kept ms (marks_before ms k n) c m id j r (length-marks_before ms k n) ne em cl er a
        kc)

strip_responses :
    (sel out : List Message) (m r : Message) (id : String)
    → Strips sel out
    → In r sel
    → answers id r ≡ true
    → In r out
strip_responses sel out m r id (inl e) h a = rw e h
strip_responses sel out m r id (inr (x, e, call, unused)) h a = elim (subst (λ l. In r l) e h) [
  | inl same ↦ cc (answers-not_assistant id x (rw (← same) a))
  | inr later ↦ later
]

strip_In : (sel out : List Message) (m : Message) → Strips sel out → In m out → In m sel
strip_In sel out m (inl e) h = rw (← e) h
strip_In sel out m (inr (x, e, call, unused)) h = rw e (inr h)

-- A message that survives with a tool call of a non-empty ID has every response of the history to
-- that ID survive with it.
pub compact-responses :
    (ms : List Message) (max_n keep_n : ℤ) (p : Pruning) (m r : Message) (id : String)
    → id ≢ ""
    → In m (compact_messages ms max_n keep_n p).messages
    → calls id m ≡ true
    → In r ms
    → answers id r ≡ true
    → In r (compact_messages ms max_n keep_n p).messages
compact-responses ms max_n keep_n p m r id ne hm cl hr a =
    elim (compact-Outcome ms max_n keep_n p) [
      | inl same ↦ rw same hr
      | inr (marks, stripped) ↦
          let k = clamp_keep (pos_part max_n) (pos_part keep_n) in
          let sel = select ms (keep_marks ms k p.keep_last_assistants) in
          let s : Strips sel (compact_messages ms max_n keep_n p).messages =
            rw (stripped, marks) (strip-Strips sel) in
          strip_responses sel (compact_messages ms max_n keep_n p).messages m r id s
            (selected_responses ms k p.keep_last_assistants m r id ne
              (strip_In sel (compact_messages ms max_n keep_n p).messages m s hm) cl hr a)
            a
    ]

-- Some message of the list makes the call.
abbrev pub CallIn : String → List Message → Type 0
CallIn id ms = (m : Message) × In m ms × (calls id m ≡ true)

strip_calls :
    (sel out : List Message) (r : Message) (id : String)
    → id ≢ ""
    → Strips sel out
    → In r out
    → answers id r ≡ true
    → CallIn id sel
    → CallIn id out
strip_calls sel out r id ne (inl e) hr a (m, h, c) = (m, rw e h, c)
strip_calls sel out r id ne (inr (x, e, call, unused)) hr a (m, h, c) =
    elim (subst (λ l. In m l) e h) [
      | inr later ↦ (m, later, c)
      | inl same ↦
          let cx : calls id x ≡ true = rw (← same) c in
          cc (
            unused,
            any_answered_complete id x.tool_calls out ne (ground arith)
                (In-any_answers id r out hr a),
          )
    ]

selected_calls :
    (ms : List Message) (k : ℕ) (n : ℤ) (m r : Message) (id : String)
    → id ≢ ""
    → In r (select ms (keep_marks ms k n))
    → answers id r ≡ true
    → In m ms
    → calls id m ≡ true
    → CallIn id (select ms (keep_marks ms k n))
unfolding keep_marks
selected_calls ms k n m r id ne hr a hm cl =
    let (j, er, kj) = In-select ms (keep_marks ms k n) r hr in
    let (c, em) = In-get_elem? m ms hm in
    let (d, x, ex, cx, kx) =
      call_kept ms (marks_before ms k n) c m id j r (length-marks_before ms k n) ne em cl er a kj in
    (x, select-In ms (keep_marks ms k n) d ex kx, cx)

-- No surviving tool response to a non-empty ID is orphaned: if the history has a call with the ID
-- then a call with it survives.
pub compact-calls :
    (ms : List Message) (max_n keep_n : ℤ) (p : Pruning) (r : Message) (id : String)
    → id ≢ ""
    → In r (compact_messages ms max_n keep_n p).messages
    → answers id r ≡ true
    → CallIn id ms
    → CallIn id (compact_messages ms max_n keep_n p).messages
compact-calls ms max_n keep_n p r id ne hr a (m, hm, cl) =
    elim (compact-Outcome ms max_n keep_n p) [
      | inl same ↦ (m, rw same hm, cl)
      | inr (marks, stripped) ↦
          let k = clamp_keep (pos_part max_n) (pos_part keep_n) in
          let keep = keep_marks ms k p.keep_last_assistants in
          let out = (compact_messages ms max_n keep_n p).messages in
          let s : Strips (select ms keep) out =
            rw (stripped, marks) (strip-Strips (select ms keep)) in
          strip_calls (select ms keep) out r id ne s hr a (
            selected_calls ms k p.keep_last_assistants m r id ne
              (strip_In (select ms keep) out r s hr) a hm cl)
    ]
