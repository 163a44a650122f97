-- ===== src/Agent/Compaction/Chain/Closed.antt =====
-- applyToolChainConsistency: calls and responses under all its passes.
use gobot.Prelude.{
  ℕ, ◌≡◌, ◌∙◌, inl, inr, ◌≢◌, Bool, true, some, List, String, arith, length, get_elem?,
  get_elem?-lt, subst,
}
use gobot.Agent.Message.{Message, is_assistant}
use gobot.Agent.Compaction.Chain.{
  kept, answers, build_tool_call_map, complete_chains_backward, complete_chains_forward,
  apply_tool_chain_consistency,
}
use gobot.Agent.Compaction.Chain.Pairs.{calls, answers-not_assistant, answers_unique}
use gobot.Agent.Compaction.Chain.CallMap.{build-Sound, build-enters}
use gobot.Agent.Compaction.Chain.Backward.{
  backward_closed, backward_mono, backward_inv, length-backward,
}
use gobot.Agent.Compaction.Chain.Forward.{forward_closed, forward_mono, forward_inv, length-forward}

pub length-consistency :
    (ms : List Message) (keep : List Bool)
    → length (apply_tool_chain_consistency ms keep) ≡ length keep
unfolding apply_tool_chain_consistency
length-consistency ms keep =
    length-forward ms (complete_chains_backward ms keep (build_tool_call_map ms))
    ∙ length-backward ms keep (build_tool_call_map ms)

pub consistency_mono :
    (ms : List Message) (keep : List Bool) (j : ℕ)
    → kept keep j ≡ true
    → kept (apply_tool_chain_consistency ms keep) j ≡ true
unfolding apply_tool_chain_consistency
consistency_mono ms keep j h =
    forward_mono ms (complete_chains_backward ms keep (build_tool_call_map ms)) j
      (backward_mono ms keep (build_tool_call_map ms) j h)

-- An assistant turn is no response, so the forward pass never adds one.
assistant_stays :
    (ms : List Message) (keep : List Bool) (c : ℕ) (m : Message)
    → get_elem? ms c ≡ some m
    → is_assistant m.role ≡ true
    → kept (complete_chains_forward ms keep) c ≡ true
    → kept keep c ≡ true
assistant_stays ms keep c m e call k = elim (forward_inv ms keep c e k) [
  | inl old ↦ old
  | inr (_, _, id, _, _, _, a) ↦ cc (answers-not_assistant id m a)
]

-- A kept call keeps every response to it.
pub responses_kept :
    (ms : List Message) (keep : List Bool) (c : ℕ) (m : Message) (id : String) (j : ℕ) (r : Message)
    → length keep ≡ length ms
    → id ≢ ""
    → get_elem? ms c ≡ some m
    → calls id m ≡ true
    → get_elem? ms j ≡ some r
    → answers id r ≡ true
    → kept (apply_tool_chain_consistency ms keep) c ≡ true
    → kept (apply_tool_chain_consistency ms keep) j ≡ true
unfolding apply_tool_chain_consistency
responses_kept ms keep c m id j r len ne em cl er a k =
    let before = complete_chains_backward ms keep (build_tool_call_map ms) in
    forward_closed ms before c m id j r em ne (assistant_stays ms before c m em (ground arith) k) cl
      (omega (arith, length-backward ms keep (build_tool_call_map ms), get_elem?-lt ms j er)) er a

-- A tool response was kept already before the backward pass.
response_stays :
    (ms : List Message) (keep : List Bool) (j : ℕ) (r : Message) (id : String)
    → get_elem? ms j ≡ some r
    → answers id r ≡ true
    → kept (complete_chains_backward ms keep (build_tool_call_map ms)) j ≡ true
    → kept keep j ≡ true
response_stays ms keep j r id e a k = elim (backward_inv ms keep (build_tool_call_map ms) j k) [
  | inl old ↦ old
  | inr (key, found) ↦
      let (m, em, cl) = build-Sound ms key j found in
      let same : r ≡ m = ground arith in
      let call : is_assistant r.role ≡ true = rw same (ground arith) in
      cc (answers-not_assistant id r a, call)
]

-- Some kept assistant turn makes the call.
abbrev pub CallKept : List Message → List Bool → String → Type 0
CallKept ms keep id =
    (c : ℕ) × (m : Message) × (get_elem? ms c ≡ some m) × (calls id m ≡ true) × (kept keep c ≡ true)

-- A kept response whose call is in the history has a call kept.
pub call_kept :
    (ms : List Message) (keep : List Bool) (c : ℕ) (m : Message) (id : String) (j : ℕ) (r : Message)
    → length keep ≡ length ms
    → id ≢ ""
    → get_elem? ms c ≡ some m
    → calls id m ≡ true
    → get_elem? ms j ≡ some r
    → answers id r ≡ true
    → kept (apply_tool_chain_consistency ms keep) j ≡ true
    → CallKept ms (apply_tool_chain_consistency ms keep) id
unfolding apply_tool_chain_consistency
call_kept ms keep c m id j r len ne em cl er a k =
    let before = complete_chains_backward ms keep (build_tool_call_map ms) in
    elim (forward_inv ms before j er k) [
      | inl old ↦
          let (n, found) = build-enters ms id c m em ne cl in
          let (caller, ec, cc') = build-Sound ms id n found in
          (
            n,
            caller,
            ec,
            cc',
            forward_mono ms before n (
                backward_closed ms keep (build_tool_call_map ms) j r id n er a found
                  (response_stays ms keep j r id er a old) (omega (arith, get_elem?-lt ms n ec))),
          )
      | inr (n, caller, key, ec, kn, cn, ak) ↦
          let same : key ≡ id = answers_unique key id r ak a in
          (n, caller, ec, subst (λ s. calls s caller ≡ true) same cn, kn)
    ]
