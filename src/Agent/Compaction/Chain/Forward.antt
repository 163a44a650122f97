-- ===== src/Agent/Compaction/Chain/Forward.antt =====
-- completeChainsForward: the marks that it adds.
use gobot.Prelude.{
  ℕ, suc, ◌≤◌, ◌<◌, ◌≡◌, refl, ◌⊎◌, inl, inr, ◌≢◌, Bool, true, List, [], ◌∷◌, String, arith, some,
  length, get_elem?, drop, drop-cons, drop-nil, Bool-cases, ◌==◌,
}
use gobot.Agent.Message.{Message, is_assistant}
use gobot.Agent.Compaction.Chain.{kept, answers, forward_at, forward_from, complete_chains_forward}
use gobot.Agent.Compaction.Chain.Pairs.{calls}
use gobot.Agent.Compaction.Chain.Responses.{
  length-for_call, for_call_mono, for_call_marks, for_call_inv,
}

length-forward_at :
    (ms : List Message) (i : ℕ) (m : Message) (keep : List Bool)
    → length (forward_at ms i m keep) ≡ length keep
unfolding forward_at
length-forward_at ms i m keep = ground (arith, length-for_call ms keep m.tool_calls)

forward_at_mono :
    (ms : List Message) (i : ℕ) (m : Message) (keep : List Bool) (j : ℕ)
    → kept keep j ≡ true
    → kept (forward_at ms i m keep) j ≡ true
unfolding forward_at
forward_at_mono ms i m keep j h = ground (arith, for_call_mono ms keep m.tool_calls j h)

forward_from_mono :
    (ms : List Message) (i : ℕ) (rest : List Message) (keep : List Bool) (j : ℕ)
    → kept keep j ≡ true
    → kept (forward_from ms i rest keep) j ≡ true
unfolding forward_from
forward_from_mono ms i [] keep j h = h
forward_from_mono ms i (m ∷ rest) keep j h =
    forward_from_mono ms (suc i) rest (forward_at ms i m keep) j (forward_at_mono ms i m keep j h)

length-forward_from :
    (ms : List Message) (i : ℕ) (rest : List Message) (keep : List Bool)
    → length (forward_from ms i rest keep) ≡ length keep
unfolding forward_from
length-forward_from ms i [] keep = refl
length-forward_from ms i (m ∷ rest) keep = omega (
  arith,
  length-forward_from ms (suc i) rest (forward_at ms i m keep),
  length-forward_at ms i m keep,
)

forward_at_marks :
    (ms : List Message) (i : ℕ) (m : Message) (keep : List Bool) (id : String) (j : ℕ) (r : Message)
    → id ≢ ""
    → kept keep i ≡ true
    → calls id m ≡ true
    → j < length keep
    → get_elem? ms j ≡ some r
    → answers id r ≡ true
    → kept (forward_at ms i m keep) j ≡ true
unfolding forward_at
forward_at_marks ms i m keep id j r ne k c lt e a =
    ground (arith, for_call_marks ms keep m.tool_calls id j r ne (ground arith) lt e a)

-- A call kept when its turn is reached has its responses marked.
forward_from_marks :
    (ms : List Message) (i : ℕ) (rest : List Message) (keep : List Bool) (c : ℕ) (m : Message)
    (id : String) (j : ℕ) (r : Message)
    → drop i ms ≡ rest
    → i ≤ c
    → get_elem? ms c ≡ some m
    → id ≢ ""
    → kept keep c ≡ true
    → calls id m ≡ true
    → j < length keep
    → get_elem? ms j ≡ some r
    → answers id r ≡ true
    → kept (forward_from ms i rest keep) j ≡ true
unfolding forward_from
forward_from_marks ms i [] keep c m id j r d le em ne k cl lt er a = cc (drop-nil i c ms d le)
forward_from_marks ms i (x ∷ rest) keep c m id j r d le em ne k cl lt er a =
    elim (Bool-cases (c == i)) [
      | inl here ↦
          let same : c ≡ i = ground arith in
          let is_m : m ≡ x = ground (arith, drop-cons i ms d) in
          forward_from_mono ms (suc i) rest (forward_at ms i x keep) j
            (forward_at_marks ms i x keep id j r ne (rw (← same) k) (rw (← is_m) cl) lt er a)
      | inr later ↦
          forward_from_marks ms (suc i) rest (forward_at ms i x keep) c m id j r
            (drop-cons i ms d).1 (ground arith) em ne (forward_at_mono ms i x keep c k) cl
            (omega (arith, length-forward_at ms i x keep)) er a
    ]

-- What the pass adds is a response to a call that is kept.
abbrev pub Answered : List Message → List Bool → Message → Type 0
Answered ms keep r =
    (c : ℕ) × (m : Message) × (id : String) × (get_elem? ms c ≡ some m)
    × (kept keep c ≡ true)
    × (calls id m ≡ true)
    × (answers id r ≡ true)

forward_at_inv :
    (ms : List Message) (i : ℕ) (m : Message) (keep : List Bool) (j : ℕ) {r : Message}
    → get_elem? ms j ≡ some r
    → kept (forward_at ms i m keep) j ≡ true
    → (kept keep j ≡ true)
      ⊎ ((id : String) × (kept keep i ≡ true) × (calls id m ≡ true) × (answers id r ≡ true))
unfolding forward_at
forward_at_inv ms i m keep j e h = elim (Bool-cases (kept keep i)) [
  | inr out ↦ inl (ground arith)
  | inl now ↦ elim (Bool-cases (is_assistant m.role)) [
    | inr no_call ↦ inl (ground arith)
    | inl call ↦ elim (for_call_inv ms keep m.tool_calls j e (ground arith)) [
      | inl old ↦ inl old
      | inr (id, c, a) ↦ inr (id, now, ground arith, a)
    ]
  ]
]

forward_from_inv :
    (ms : List Message) (i : ℕ) (rest : List Message) (keep : List Bool) (j : ℕ) {r : Message}
    → drop i ms ≡ rest
    → get_elem? ms j ≡ some r
    → kept (forward_from ms i rest keep) j ≡ true
    → (kept keep j ≡ true) ⊎ Answered ms (forward_from ms i rest keep) r
unfolding forward_from
forward_from_inv ms i [] keep j d e h = inl h
forward_from_inv ms i (x ∷ rest) keep j d e h =
    elim (forward_from_inv ms (suc i) rest (forward_at ms i x keep) j (drop-cons i ms d).1 e h) [
      | inr found ↦ inr found
      | inl old ↦ elim (forward_at_inv ms i x keep j e old) [
        | inl older ↦ inl older
        | inr (id, now, c, a) ↦ inr (
          i,
          x,
          id,
          (drop-cons i ms d).0,
          forward_from_mono ms (suc i) rest (forward_at ms i x keep) i
              (forward_at_mono ms i x keep i now),
          c,
          a,
        )
      ]
    ]

-- After the pass a kept call has its responses kept.
pub forward_closed :
    (ms : List Message) (keep : List Bool) (c : ℕ) (m : Message) (id : String) (j : ℕ) (r : Message)
    → get_elem? ms c ≡ some m
    → id ≢ ""
    → kept keep c ≡ true
    → calls id m ≡ true
    → j < length keep
    → get_elem? ms j ≡ some r
    → answers id r ≡ true
    → kept (complete_chains_forward ms keep) j ≡ true
unfolding complete_chains_forward
forward_closed ms keep c m id j r em ne k cl lt er a =
    forward_from_marks ms 0 ms keep c m id j r refl (omega arith) em ne k cl lt er a

pub forward_mono :
    (ms : List Message) (keep : List Bool) (j : ℕ)
    → kept keep j ≡ true
    → kept (complete_chains_forward ms keep) j ≡ true
unfolding complete_chains_forward
forward_mono ms keep j h = forward_from_mono ms 0 ms keep j h

pub forward_inv :
    (ms : List Message) (keep : List Bool) (j : ℕ) {r : Message}
    → get_elem? ms j ≡ some r
    → kept (complete_chains_forward ms keep) j ≡ true
    → (kept keep j ≡ true) ⊎ Answered ms (complete_chains_forward ms keep) r
unfolding complete_chains_forward
forward_inv ms keep j e h = forward_from_inv ms 0 ms keep j refl e h

pub length-forward :
    (ms : List Message) (keep : List Bool) → length (complete_chains_forward ms keep) ≡ length keep
unfolding complete_chains_forward
length-forward ms keep = length-forward_from ms 0 ms keep
