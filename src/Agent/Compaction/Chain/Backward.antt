-- ===== src/Agent/Compaction/Chain/Backward.antt =====
-- completeChainsBackward: the marks that it adds.
use gobot.Prelude.{
  ℕ, suc, ◌≤◌, ◌<◌, ◌≡◌, refl, ap, ◌⊎◌, inl, inr, Bool, true, false, some, List, [], ◌∷◌, String,
  eq_iff, arith, length, length-set, get_elem?, get_or-set, get_or-set_self, drop, drop-cons,
  drop-nil, Bool-cases, Option-cases, ◌==◌,
}
use gobot.Agent.Message.{Message}
use gobot.Agent.Compaction.Chain.{
  kept, answers, lookup, backward_at, backward_from, complete_chains_backward,
}
use gobot.Agent.Compaction.Chain.Pairs.{kept-set_mono}

backward_at_mono :
    (calls : List (String × ℕ)) (i : ℕ) (m : Message) (keep : List Bool) (j : ℕ)
    → kept keep j ≡ true
    → kept (backward_at calls i m keep) j ≡ true
unfolding backward_at
backward_at_mono calls i m keep j h = elim (Option-cases m.tool_call_id) [
  | inl no_id ↦ ground arith
  | inr (id, e) ↦ elim (Option-cases (lookup id calls)) [
    | inl no_call ↦ ground arith
    | inr (c, f) ↦ ground (arith, kept-set_mono keep c j h)
  ]
]

length-backward_at :
    (calls : List (String × ℕ)) (i : ℕ) (m : Message) (keep : List Bool)
    → length (backward_at calls i m keep) ≡ length keep
unfolding backward_at
length-backward_at calls i m keep = elim (Option-cases m.tool_call_id) [
  | inl no_id ↦ ground arith
  | inr (id, e) ↦ elim (Option-cases (lookup id calls)) [
    | inl no_call ↦ ground arith
    | inr (c, f) ↦ ground (arith, length-set keep c true)
  ]
]

backward_at_marks :
    (calls : List (String × ℕ)) (i : ℕ) (m : Message) (keep : List Bool) (id : String) (c : ℕ)
    → answers id m ≡ true
    → lookup id calls ≡ some c
    → kept keep i ≡ true
    → c < length keep
    → kept (backward_at calls i m keep) c ≡ true
unfolding backward_at
backward_at_marks calls i m keep id c a l k lt = elim (Option-cases m.tool_call_id) [
  | inl no_id ↦ ground arith
  | inr (r, e) ↦
      let same : r ≡ id = ground (arith, eq_iff r id) in
      ground (arith, get_or-set_self keep c true false lt, ap (λ k. lookup k calls) same)
]

backward_at_inv :
    (calls : List (String × ℕ)) (i : ℕ) (m : Message) (keep : List Bool) (j : ℕ)
    → kept (backward_at calls i m keep) j ≡ true
    → (kept keep j ≡ true) ⊎ ((id : String) × (lookup id calls ≡ some j))
unfolding backward_at
backward_at_inv calls i m keep j h = elim (Option-cases m.tool_call_id) [
  | inl no_id ↦ inl (ground arith)
  | inr (id, e) ↦ elim (Option-cases (lookup id calls)) [
    | inl no_call ↦ inl (ground arith)
    | inr (c, f) ↦ elim (get_or-set keep c j true false) [
      | inl same ↦ inl (ground arith)
      | inr (here, _) ↦ inr (id, rw (← here) f)
    ]
  ]
]

backward_from_mono :
    (calls : List (String × ℕ)) (i : ℕ) (rest : List Message) (keep : List Bool) (j : ℕ)
    → kept keep j ≡ true
    → kept (backward_from calls i rest keep) j ≡ true
unfolding backward_from
backward_from_mono calls i [] keep j h = h
backward_from_mono calls i (m ∷ rest) keep j h =
    backward_from_mono calls (suc i) rest (backward_at calls i m keep) j
      (backward_at_mono calls i m keep j h)

length-backward_from :
    (calls : List (String × ℕ)) (i : ℕ) (rest : List Message) (keep : List Bool)
    → length (backward_from calls i rest keep) ≡ length keep
unfolding backward_from
length-backward_from calls i [] keep = refl
length-backward_from calls i (m ∷ rest) keep = omega (
  arith,
  length-backward_from calls (suc i) rest (backward_at calls i m keep),
  length-backward_at calls i m keep,
)

backward_from_marks :
    (calls : List (String × ℕ)) (ms : List Message) (i : ℕ) (rest : List Message) (keep : List Bool)
    (j : ℕ) (r : Message) (id : String) (c : ℕ)
    → drop i ms ≡ rest
    → i ≤ j
    → get_elem? ms j ≡ some r
    → answers id r ≡ true
    → lookup id calls ≡ some c
    → kept keep j ≡ true
    → c < length keep
    → kept (backward_from calls i rest keep) c ≡ true
unfolding backward_from
backward_from_marks calls ms i [] keep j r id c d le e a l k lt = cc (drop-nil i j ms d le)
backward_from_marks calls ms i (x ∷ rest) keep j r id c d le e a l k lt =
    elim (Bool-cases (j == i)) [
      | inl here ↦
          let same : j ≡ i = ground arith in
          let is_r : r ≡ x = ground (arith, drop-cons i ms d) in
          backward_from_mono calls (suc i) rest (backward_at calls i x keep) c
            (backward_at_marks calls i x keep id c (rw (← is_r) a) l (rw (← same) k) lt)
      | inr later ↦
          backward_from_marks calls ms (suc i) rest (backward_at calls i x keep) j r id c
            (drop-cons i ms d).1 (ground arith) e a l (backward_at_mono calls i x keep j k)
            (omega (arith, length-backward_at calls i x keep))
    ]

backward_from_inv :
    (calls : List (String × ℕ)) (i : ℕ) (rest : List Message) (keep : List Bool) (j : ℕ)
    → kept (backward_from calls i rest keep) j ≡ true
    → (kept keep j ≡ true) ⊎ ((id : String) × (lookup id calls ≡ some j))
unfolding backward_from
backward_from_inv calls i [] keep j h = inl h
backward_from_inv calls i (m ∷ rest) keep j h =
    elim (backward_from_inv calls (suc i) rest (backward_at calls i m keep) j h) [
      | inl old ↦ backward_at_inv calls i m keep j old
      | inr found ↦ inr found
    ]

-- A kept response has its call kept after the pass.
pub backward_closed :
    (ms : List Message) (keep : List Bool) (calls : List (String × ℕ)) (j : ℕ) (r : Message)
    (id : String) (c : ℕ)
    → get_elem? ms j ≡ some r
    → answers id r ≡ true
    → lookup id calls ≡ some c
    → kept keep j ≡ true
    → c < length keep
    → kept (complete_chains_backward ms keep calls) c ≡ true
unfolding complete_chains_backward
backward_closed ms keep calls j r id c e a l k lt =
    backward_from_marks calls ms 0 ms keep j r id c refl (omega arith) e a l k lt

pub backward_mono :
    (ms : List Message) (keep : List Bool) (calls : List (String × ℕ)) (j : ℕ)
    → kept keep j ≡ true
    → kept (complete_chains_backward ms keep calls) j ≡ true
unfolding complete_chains_backward
backward_mono ms keep calls j h = backward_from_mono calls 0 ms keep j h

pub backward_inv :
    (ms : List Message) (keep : List Bool) (calls : List (String × ℕ)) (j : ℕ)
    → kept (complete_chains_backward ms keep calls) j ≡ true
    → (kept keep j ≡ true) ⊎ ((id : String) × (lookup id calls ≡ some j))
unfolding complete_chains_backward
backward_inv ms keep calls j h = backward_from_inv calls 0 ms keep j h

pub length-backward :
    (ms : List Message) (keep : List Bool) (calls : List (String × ℕ))
    → length (complete_chains_backward ms keep calls) ≡ length keep
unfolding complete_chains_backward
length-backward ms keep calls = length-backward_from calls 0 ms keep
