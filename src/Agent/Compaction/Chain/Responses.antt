-- ===== src/Agent/Compaction/Chain/Responses.antt =====
-- keepResponsesForCall: the marks that it adds.
use gobot.Prelude.{
  ℕ, zero, suc, ◌<◌, ◌≡◌, refl, ap, ◌⊎◌, inl, inr, ◌≢◌, Bool, true, List, [], ◌∷◌, String, str_eq,
  eq_iff, arith, some, length, get_elem?, Bool-cases,
}
use gobot.Agent.Message.{Message, ToolCall}
use gobot.Agent.Compaction.Chain.{kept, answers, keep_responses, keep_responses_for_call}
use gobot.Agent.Compaction.Chain.Pairs.{calls_in}

responses_mono :
    (id : String) (ms : List Message) (keep : List Bool) (j : ℕ)
    → kept keep j ≡ true
    → kept (keep_responses id ms keep) j ≡ true
unfolding keep_responses
responses_mono id [] keep j h = h
responses_mono id (m ∷ ms) [] j h = h
responses_mono id (m ∷ ms) (k ∷ keep) zero h = ground arith
responses_mono id (m ∷ ms) (k ∷ keep) (suc j) h = responses_mono id ms keep j h

responses_marks :
    (id : String) (ms : List Message) (keep : List Bool) (j : ℕ) {r : Message}
    → j < length keep
    → get_elem? ms j ≡ some r
    → answers id r ≡ true
    → kept (keep_responses id ms keep) j ≡ true
unfolding keep_responses
responses_marks id [] keep j lt e a = cc
responses_marks id (m ∷ ms) [] j lt e a = absurd (omega arith)
responses_marks id (m ∷ ms) (k ∷ keep) zero lt e a = ground arith
responses_marks id (m ∷ ms) (k ∷ keep) (suc j) lt e a =
    responses_marks id ms keep j (omega arith) e a

responses_inv :
    (id : String) (ms : List Message) (keep : List Bool) (j : ℕ) {r : Message}
    → get_elem? ms j ≡ some r
    → kept (keep_responses id ms keep) j ≡ true
    → (kept keep j ≡ true) ⊎ (answers id r ≡ true)
unfolding keep_responses
responses_inv id [] keep j e h = inl h
responses_inv id (m ∷ ms) [] j e h = inl h
responses_inv id (m ∷ ms) (k ∷ keep) zero e h = ground arith
responses_inv id (m ∷ ms) (k ∷ keep) (suc j) e h = responses_inv id ms keep j e h

length-responses :
    (id : String) (ms : List Message) (keep : List Bool)
    → length (keep_responses id ms keep) ≡ length keep
unfolding keep_responses
length-responses id [] keep = refl
length-responses id (m ∷ ms) [] = refl
length-responses id (m ∷ ms) (k ∷ keep) = ap suc (length-responses id ms keep)

pub length-for_call :
    (ms : List Message) (keep : List Bool) (tcs : List ToolCall)
    → length (keep_responses_for_call ms keep tcs) ≡ length keep
unfolding keep_responses_for_call
length-for_call ms keep [] = refl
length-for_call ms keep (tc ∷ tcs) = ground (
  arith,
  length-for_call ms keep tcs,
  length-for_call ms (keep_responses tc.id ms keep) tcs,
  length-responses tc.id ms keep,
)

pub for_call_mono :
    (ms : List Message) (keep : List Bool) (tcs : List ToolCall) (j : ℕ)
    → kept keep j ≡ true
    → kept (keep_responses_for_call ms keep tcs) j ≡ true
unfolding keep_responses_for_call
for_call_mono ms keep [] j h = h
for_call_mono ms keep (tc ∷ tcs) j h = ground (
  arith,
  for_call_mono ms keep tcs j h,
  for_call_mono ms (keep_responses tc.id ms keep) tcs j (responses_mono tc.id ms keep j h),
)

pub for_call_marks :
    (ms : List Message) (keep : List Bool) (tcs : List ToolCall) (id : String) (j : ℕ) (r : Message)
    → id ≢ ""
    → calls_in id tcs ≡ true
    → j < length keep
    → get_elem? ms j ≡ some r
    → answers id r ≡ true
    → kept (keep_responses_for_call ms keep tcs) j ≡ true
unfolding keep_responses_for_call
for_call_marks ms keep [] id j r ne c lt e a = cc
for_call_marks ms keep (tc ∷ tcs) id j r ne c lt e a = elim (Bool-cases (str_eq tc.id id)) [
  | inl same ↦ ground (
    arith,
    eq_iff tc.id id,
    eq_iff tc.id "",
    responses_marks tc.id ms keep j lt e,
    for_call_mono ms (keep_responses tc.id ms keep) tcs j,
  )
  | inr differs ↦ ground (
    arith,
    length-responses tc.id ms keep,
    for_call_marks ms keep tcs id j r ne (ground arith) lt e a,
    for_call_marks ms (keep_responses tc.id ms keep) tcs id j r ne (ground arith)
        (omega (arith, length-responses tc.id ms keep)) e a,
  )
]

pub for_call_inv :
    (ms : List Message) (keep : List Bool) (tcs : List ToolCall) (j : ℕ) {r : Message}
    → get_elem? ms j ≡ some r
    → kept (keep_responses_for_call ms keep tcs) j ≡ true
    → (kept keep j ≡ true) ⊎ ((id : String) × (calls_in id tcs ≡ true) × (answers id r ≡ true))
unfolding keep_responses_for_call
for_call_inv ms keep [] j e h = inl h
for_call_inv ms keep (tc ∷ tcs) j e h = elim (Bool-cases (str_eq tc.id "")) [
  | inl blank ↦ elim (for_call_inv ms keep tcs j e (rw blank at h)) [
    | inl old ↦ inl old
    | inr (id, c, a) ↦ inr (id, ground arith, a)
  ]
  | inr full ↦ elim (for_call_inv ms (keep_responses tc.id ms keep) tcs j e (rw full at h)) [
    | inl old ↦ elim (responses_inv tc.id ms keep j e old) [
      | inl older ↦ inl older
      | inr a ↦ inr (tc.id, ground (arith, eq_iff tc.id tc.id), a)
    ]
    | inr (id, c, a) ↦ inr (id, ground arith, a)
  ]
]
