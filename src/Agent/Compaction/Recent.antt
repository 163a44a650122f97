-- ===== src/Agent/Compaction/Recent.antt =====
-- The newest messages of a history under CompactMessages, and what its keep array says of the
-- message that the strip drops.
use gobot.Prelude.{
  ℕ, zero, suc, ◌+◌, ◌-◌, ◌≤◌, ◌<◌, ◌≡◌, ap, sym, ◌∙◌, ◌⊎◌, inl, inr, Bool, true, false, ◌||◌, some,
  List, ◌∷◌, arith, length, length-replicate, length-set, get_elem?, get_elem?-lt, set,
  get_or-set_self, replicate, In, Bool-cases, leb, ◌==◌, subst,
}
use gobot.Prelude.Int.{ℤ, pos, pos_part, leb_ℤ, ◌<ℤ◌}
use gobot.Agent.Message.{Message, is_assistant}
use gobot.Agent.Compaction.{
  Pruning, keep_user_before, keep_assistant_at, keep_assistants_below, apply_keep_last_assistants,
  mark_from, select, any_answered, strip_leading_assistant_turns, clamp_keep, keep_marks,
  compact_messages,
}
use gobot.Agent.Compaction.Chain.{kept}
use gobot.Agent.Compaction.Chain.Pairs.{kept-set_mono}
use gobot.Agent.Compaction.Chain.Closed.{consistency_mono}
use gobot.Agent.Compaction.Select.{select-In, strip-Strips, Strips}

mark_from_mono :
    (n i : ℕ) (keep : List Bool) (j : ℕ) → kept keep j ≡ true → kept (mark_from n i keep) j ≡ true
unfolding mark_from
mark_from_mono zero i keep j h = h
mark_from_mono (suc n) i keep j h =
    mark_from_mono n (suc i) (set keep i true) j (kept-set_mono keep i j h)

mark_from_marks :
    (n i : ℕ) (keep : List Bool) (j : ℕ)
    → i ≤ j
    → j < i + n
    → j < length keep
    → kept (mark_from n i keep) j ≡ true
unfolding mark_from
mark_from_marks zero i keep j le lt len = absurd (omega arith)
mark_from_marks (suc n) i keep j le lt len = elim (Bool-cases (j == i)) [
  | inl here ↦
      let same : j ≡ i = ground arith in
      mark_from_mono n (suc i) (set keep i true) j
        (rw same (get_or-set_self keep i true false (omega arith)))
  | inr later ↦
      mark_from_marks n (suc i) (set keep i true) j (ground arith) (omega arith)
        (omega (arith, length-set keep i true))
]

keep_user_before_mono :
    (ms : List Message) (i : ℕ) (keep : List Bool) (j : ℕ)
    → kept keep j ≡ true
    → kept (keep_user_before ms i keep) j ≡ true
keep_user_before_mono ms zero keep j h = h
keep_user_before_mono ms (suc i) keep j h = ground (arith, kept-set_mono keep i j h)

keep_assistants_below_mono :
    (ms : List Message) (n i found : ℕ) (keep : List Bool) (j : ℕ)
    → kept keep j ≡ true
    → kept (keep_assistants_below ms n i found keep) j ≡ true
unfolding keep_assistants_below
keep_assistants_below_mono ms n zero found keep j h = h
keep_assistants_below_mono ms n (suc i) found keep j h =
    let (found', keep') = keep_assistant_at ms n i found keep in
    keep_assistants_below_mono ms n i found' keep' j
      (ground (arith, kept-set_mono keep i j h, keep_user_before_mono ms i (set keep i true) j))

keep_marks-recent :
    (ms : List Message) (k : ℕ) (n : ℤ) (i : ℕ)
    → length ms - k ≤ i
    → i < length ms
    → kept (keep_marks ms k n) i ≡ true
unfolding keep_marks
keep_marks-recent ms k n i le lt =
    let start = length ms - k in
    let blank = replicate (length ms) false in
    let tail : kept (mark_from k start blank) i ≡ true =
      mark_from_marks k start blank i le (omega arith)
        (omega (arith, length-replicate (length ms) false)) in
    consistency_mono ms (apply_keep_last_assistants ms (mark_from k start blank) n) i (
      unfold apply_keep_last_assistants in
      ground (
        arith,
        keep_assistants_below_mono ms (pos_part n) (length ms) 0 (mark_from k start blank) i tail,
      ))

-- Compaction is triggered.
pub record Triggered (ms : List Message) (max_n keep_n : ℤ) : Type 0 where
  pub max_pos : pos 0 <ℤ max_n
  pub keep_pos : pos 0 <ℤ keep_n
  pub long : pos_part max_n < length ms

Triggered-result :
    (ms : List Message) (max_n keep_n : ℤ) (p : Pruning)
    → Triggered ms max_n keep_n
    → let out = compact_messages ms max_n keep_n p in
      (out.keep
        ≡ keep_marks ms (clamp_keep (pos_part max_n) (pos_part keep_n)) p.keep_last_assistants)
      × (out.messages ≡ strip_leading_assistant_turns (select ms out.keep))
unfolding compact_messages
Triggered-result ms max_n keep_n p t =
    let valid : (leb_ℤ max_n (pos 0) || leb_ℤ keep_n (pos 0)) ≡ false = ground arith in
    let long : leb (length ms) (pos_part max_n) ≡ false = ground arith in
    (rw (valid, long), rw (valid, long))

-- Where a compaction is triggered, each of the newest messages, as many as the clamped count, is
-- marked, and survives unless it is an assistant turn, the first one kept, and the leading strip
-- drops it.
pub compact-recent :
    (ms : List Message) (max_n keep_n : ℤ) (p : Pruning) (i : ℕ) (m : Message)
    → Triggered ms max_n keep_n
    → length ms - clamp_keep (pos_part max_n) (pos_part keep_n) ≤ i
    → get_elem? ms i ≡ some m
    → let out = compact_messages ms max_n keep_n p in
      (kept out.keep i ≡ true)
      × (In m out.messages
          ⊎ ((select ms out.keep ≡ m ∷ out.messages) × (is_assistant m.role ≡ true)))
compact-recent ms max_n keep_n p i m t le e =
    let (marks, stripped) = Triggered-result ms max_n keep_n p t in
    let k = clamp_keep (pos_part max_n) (pos_part keep_n) in
    let out = compact_messages ms max_n keep_n p in
    let marked : kept out.keep i ≡ true =
      rw marks (keep_marks-recent ms k p.keep_last_assistants i le (get_elem?-lt ms i e)) in
    let s : Strips (select ms out.keep) out.messages =
      rw stripped (strip-Strips (select ms out.keep)) in
    (marked, survives (select ms out.keep) out.messages s (select-In ms out.keep i e marked))
  where
    survives :
        (sel rest : List Message)
        → Strips sel rest
        → In m sel
        → In m rest ⊎ ((sel ≡ m ∷ rest) × (is_assistant m.role ≡ true))
    survives sel rest (inl same) h = inl (rw same h)
    survives sel rest (inr (x, q, call, unused)) h = elim (subst (λ l. In m l) q h) [
      | inl here ↦ inr (q ∙ ap (λ y. y ∷ rest) (sym here), rw here call)
      | inr later ↦ inl later
    ]

-- Where a compaction is triggered and the first message that the returned array marks is an
-- assistant turn that no marked message answers, the result has only the other marked messages.
pub compact-strip_still_marked :
    (ms : List Message) (max_n keep_n : ℤ) (p : Pruning) (m : Message) (rest : List Message)
    → Triggered ms max_n keep_n
    → select ms (compact_messages ms max_n keep_n p).keep ≡ m ∷ rest
    → is_assistant m.role ≡ true
    → any_answered m.tool_calls rest ≡ false
    → (compact_messages ms max_n keep_n p).messages ≡ rest
unfolding strip_leading_assistant_turns
compact-strip_still_marked ms max_n keep_n p m rest t sel call unused =
    (Triggered-result ms max_n keep_n p t).1 ∙ rw sel (ground arith)
