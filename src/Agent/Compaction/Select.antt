-- ===== src/Agent/Compaction/Select.antt =====
-- The parts of CompactMessages: lengths of the marks, the selection and the leading strip.
use gobot.Prelude.{
  ℕ, zero, suc, ◌-◌, ◌≡◌, refl, ◌∙◌, ◌⊎◌, inl, inr, ◌≢◌, Bool, true, false, some, List, [], ◌∷◌,
  String, str_eq, eq_iff, arith, length, get_elem?, set, length-set, replicate, length-replicate,
  In, Bool-cases,
}
use gobot.Prelude.Int.{ℤ, pos_part}
use gobot.Agent.Message.{Message, ToolCall, is_assistant}
use gobot.Agent.Compaction.{
  keep_user_before, keep_assistant_at, keep_assistants_below, apply_keep_last_assistants, mark_from,
  select, any_answers, any_answered, strip_leading_assistant_turns,
}
use gobot.Agent.Compaction.Chain.{kept, answers}
use gobot.Agent.Compaction.Chain.Pairs.{calls_in}

length-mark_from : (n i : ℕ) (keep : List Bool) → length (mark_from n i keep) ≡ length keep
unfolding mark_from
length-mark_from zero i keep = refl
length-mark_from (suc n) i keep =
    length-mark_from n (suc i) (set keep i true) ∙ length-set keep i true

length-keep_user_before :
    (ms : List Message) (i : ℕ) (keep : List Bool)
    → length (keep_user_before ms i keep) ≡ length keep
length-keep_user_before ms zero keep = refl
length-keep_user_before ms (suc i) keep = ground (arith, length-set keep i true)

length-keep_assistants_below :
    (ms : List Message) (n i found : ℕ) (keep : List Bool)
    → length (keep_assistants_below ms n i found keep) ≡ length keep
unfolding keep_assistants_below
length-keep_assistants_below ms n zero found keep = refl
length-keep_assistants_below ms n (suc i) found keep =
    let (found', keep') = keep_assistant_at ms n i found keep in
    length-keep_assistants_below ms n i found' keep' ∙ step
  where
    step : length (keep_assistant_at ms n i found keep).1 ≡ length keep
    step = ground (arith, length-keep_user_before ms i (set keep i true), length-set keep i true)

pub length-apply_keep_last :
    (ms : List Message) (keep : List Bool) (n : ℤ)
    → length (apply_keep_last_assistants ms keep n) ≡ length keep
unfolding apply_keep_last_assistants
length-apply_keep_last ms keep n =
    ground (arith, length-keep_assistants_below ms (pos_part n) (length ms) 0 keep)

-- The marks before the tool-chain passes.
abbrev pub marks_before : List Message → ℕ → ℤ → List Bool
marks_before ms k n =
    apply_keep_last_assistants ms (mark_from k (length ms - k) (replicate (length ms) false)) n

pub length-marks_before :
    (ms : List Message) (k : ℕ) (n : ℤ) → length (marks_before ms k n) ≡ length ms
length-marks_before ms k n =
    length-apply_keep_last ms (mark_from k (length ms - k) (replicate (length ms) false)) n
    ∙ length-mark_from k (length ms - k) (replicate (length ms) false)
    ∙ length-replicate (length ms) false

pub select-In :
    (ms : List Message) (keep : List Bool) (i : ℕ) {m : Message}
    → get_elem? ms i ≡ some m
    → kept keep i ≡ true
    → In m (select ms keep)
unfolding select
select-In [] keep i e k = cc
select-In (x ∷ ms) [] i e k = cc
select-In (x ∷ ms) (b ∷ keep) zero e k = rw k (inl (ground arith))
select-In (x ∷ ms) (true ∷ keep) (suc i) e k = inr (select-In ms keep i e k)
select-In (x ∷ ms) (false ∷ keep) (suc i) e k = select-In ms keep i e k

pub In-select :
    (ms : List Message) (keep : List Bool) (m : Message)
    → In m (select ms keep)
    → (i : ℕ) × (get_elem? ms i ≡ some m) × (kept keep i ≡ true)
unfolding select
In-select [] keep m h = absurd h
In-select (x ∷ ms) [] m h = absurd h
In-select (x ∷ ms) (true ∷ keep) m (inl e) = (0, cc, refl)
In-select (x ∷ ms) (true ∷ keep) m (inr h) = let (i, e, k) = In-select ms keep m h in (suc i, e, k)
In-select (x ∷ ms) (false ∷ keep) m h = let (i, e, k) = In-select ms keep m h in (suc i, e, k)

-- The strip leaves the list, or drops a first assistant turn that nothing kept answers.
abbrev pub Strips : List Message → List Message → Type 0
Strips ms out =
    (out ≡ ms)
    ⊎ ((m : Message) × (ms ≡ m ∷ out)
        × (is_assistant m.role ≡ true)
        × (any_answered m.tool_calls out ≡ false))

pub strip-Strips : (ms : List Message) → Strips ms (strip_leading_assistant_turns ms)
unfolding strip_leading_assistant_turns
strip-Strips [] = inl refl
strip-Strips (m ∷ ms) = elim (Bool-cases (is_assistant m.role)) [
  | inr no_call ↦ inl (ground arith)
  | inl call ↦ elim (Bool-cases (any_answered m.tool_calls ms)) [
    | inl used ↦ inl (ground arith)
    | inr unused ↦
        let out : strip_leading_assistant_turns (m ∷ ms) ≡ ms = ground arith in
        inr (m, ground arith, call, rw out unused)
  ]
]

pub In-any_answers :
    (id : String) (r : Message) (ms : List Message)
    → In r ms
    → answers id r ≡ true
    → any_answers id ms ≡ true
unfolding any_answers
In-any_answers id r [] h a = absurd h
In-any_answers id r (m ∷ ms) (inl e) a = let here : answers id m ≡ true = rw (← e) a in rw here
In-any_answers id r (m ∷ ms) (inr h) a = ground (arith, In-any_answers id r ms h a)

pub any_answered_complete :
    (id : String) (tcs : List ToolCall) (ms : List Message)
    → id ≢ ""
    → calls_in id tcs ≡ true
    → any_answers id ms ≡ true
    → any_answered tcs ms ≡ true
unfolding any_answered
any_answered_complete id [] ms ne c a = cc
any_answered_complete id (tc ∷ tcs) ms ne c a = elim (Bool-cases (str_eq tc.id id)) [
  | inl same ↦
      let key : tc.id ≡ id = ground (arith, eq_iff tc.id id) in
      let hit : any_answers tc.id ms ≡ true = rw key a in ground (arith, eq_iff tc.id "")
  | inr differs ↦ ground (arith, any_answered_complete id tcs ms ne (ground arith) a)
]
