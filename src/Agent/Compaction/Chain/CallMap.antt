-- ===== src/Agent/Compaction/Chain/CallMap.antt =====
-- buildToolCallMap: the entries of the map.
use gobot.Prelude.{
  ℕ, suc, ◌≤◌, ◌≡◌, refl, subst, inl, inr, ◌≢◌, true, false, if◌then◌else◌, some, List, [], ◌∷◌,
  String, str_eq, eq_iff, arith, get_elem?, drop, drop-cons, drop-nil, Bool-cases, ◌==◌,
}
use gobot.Agent.Message.{Message, ToolCall, is_assistant}
use gobot.Agent.Compaction.Chain.{lookup, add_calls, tool_calls_from, build_tool_call_map}
use gobot.Agent.Compaction.Chain.Pairs.{calls_in, calls}

-- Every entry of the map leads to an assistant turn that makes the call.
abbrev pub Sound : List Message → List (String × ℕ) → Type 0
Sound ms entries =
    (id : String) (c : ℕ)
    → lookup id entries ≡ some c
    → (m : Message) × (get_elem? ms c ≡ some m) × (calls id m ≡ true)

lookup-cons_Sound :
    (ms : List Message) (entries : List (String × ℕ)) (key : String) (i : ℕ) (m : Message)
    → get_elem? ms i ≡ some m
    → calls key m ≡ true
    → Sound ms entries
    → Sound ms ((key, i) ∷ entries)
unfolding lookup
lookup-cons_Sound ms entries key i m e c s id j h = elim (Bool-cases (str_eq key id)) [
  | inl same ↦
      let at : i ≡ j = ground arith in
      let key_id : key ≡ id = ground (arith, eq_iff key id) in
      (m, subst (λ n. get_elem? ms n ≡ some m) at e, subst (λ k. calls k m ≡ true) key_id c)
  | inr differs ↦ s id j (ground arith)
]

add_calls-Sound :
    (ms : List Message) (i : ℕ) (m : Message) (tcs : List ToolCall) (entries : List (String × ℕ))
    → get_elem? ms i ≡ some m
    → ((id : String) → calls_in id tcs ≡ true → calls id m ≡ true)
    → Sound ms entries
    → Sound ms (add_calls i tcs entries)
unfolding add_calls
add_calls-Sound ms i m [] entries e c s = s
add_calls-Sound ms i m (tc ∷ tcs) entries e c s = elim (Bool-cases (str_eq tc.id "")) [
  | inl blank ↦ rw blank (add_calls-Sound ms i m tcs entries e (λ id h. c id (ground arith)) s)
  | inr full ↦ rw full (
      add_calls-Sound ms i m tcs ((tc.id, i) ∷ entries) e (λ id h. c id (ground arith))
        (lookup-cons_Sound ms entries tc.id i m e (c tc.id (ground (arith, eq_iff tc.id tc.id))) s))
]

tool_calls_from-Sound :
    (ms : List Message) (i : ℕ) (rest : List Message) (entries : List (String × ℕ))
    → drop i ms ≡ rest
    → Sound ms entries
    → Sound ms (tool_calls_from i rest entries)
unfolding tool_calls_from
tool_calls_from-Sound ms i [] entries d s = s
tool_calls_from-Sound ms i (m ∷ rest) entries d s = elim (Bool-cases (is_assistant m.role)) [
  | inl call ↦ rw call (
      tool_calls_from-Sound ms (suc i) rest (add_calls i m.tool_calls entries) (drop-cons i ms d).1
        (add_calls-Sound ms i m m.tool_calls entries (drop-cons i ms d).0 (λ id h. ground arith) s))
  | inr no_call ↦ rw no_call (tool_calls_from-Sound ms (suc i) rest entries (drop-cons i ms d).1 s)
]

pub build-Sound : (ms : List Message) → Sound ms (build_tool_call_map ms)
unfolding build_tool_call_map lookup
build-Sound ms = tool_calls_from-Sound ms 0 ms [] refl (λ id c h. cc)

-- A key once entered stays.
Has : String → List (String × ℕ) → Type 0
Has id entries = (c : ℕ) × (lookup id entries ≡ some c)

lookup-cons_Has :
    (id key : String) (i : ℕ) (entries : List (String × ℕ))
    → Has id entries
    → Has id ((key, i) ∷ entries)
unfolding Has lookup
lookup-cons_Has id key i entries (c, h) = elim (Bool-cases (str_eq key id)) [
  | inl same ↦ (i, ground arith)
  | inr differs ↦ (c, ground arith)
]

add_calls-Has :
    (id : String) (i : ℕ) (tcs : List ToolCall) (entries : List (String × ℕ))
    → Has id entries
    → Has id (add_calls i tcs entries)
unfolding add_calls
add_calls-Has id i [] entries h = h
add_calls-Has id i (tc ∷ tcs) entries h = elim (Bool-cases (str_eq tc.id "")) [
  | inl blank ↦ rw blank (add_calls-Has id i tcs entries h)
  | inr full ↦
      rw full (add_calls-Has id i tcs ((tc.id, i) ∷ entries) (lookup-cons_Has id tc.id i entries h))
]

add_calls-enters :
    (id : String) (i : ℕ) (tcs : List ToolCall) (entries : List (String × ℕ))
    → id ≢ ""
    → calls_in id tcs ≡ true
    → Has id (add_calls i tcs entries)
unfolding add_calls Has lookup
add_calls-enters id i [] entries ne c = cc
add_calls-enters id i (tc ∷ tcs) entries ne c = elim (Bool-cases (str_eq tc.id id)) [
  | inl same ↦
      let full : str_eq tc.id "" ≡ false = ground (arith, eq_iff tc.id id, eq_iff tc.id "") in
      rw full (add_calls-Has id i tcs ((tc.id, i) ∷ entries) (i, ground arith))
  | inr differs ↦
      add_calls-enters id i tcs (if str_eq tc.id "" then entries else (tc.id, i) ∷ entries) ne
        (ground arith)
]

tool_calls_from-Has :
    (id : String) (i : ℕ) (rest : List Message) (entries : List (String × ℕ))
    → Has id entries
    → Has id (tool_calls_from i rest entries)
unfolding tool_calls_from
tool_calls_from-Has id i [] entries h = h
tool_calls_from-Has id i (m ∷ rest) entries h = elim (Bool-cases (is_assistant m.role)) [
  | inl call ↦ rw call (
      tool_calls_from-Has id (suc i) rest (add_calls i m.tool_calls entries)
        (add_calls-Has id i m.tool_calls entries h))
  | inr no_call ↦ rw no_call (tool_calls_from-Has id (suc i) rest entries h)
]

tool_calls_from-enters :
    (id : String) (i c : ℕ) (m : Message) (rest ms : List Message) (entries : List (String × ℕ))
    → drop i ms ≡ rest
    → i ≤ c
    → get_elem? ms c ≡ some m
    → id ≢ ""
    → calls id m ≡ true
    → Has id (tool_calls_from i rest entries)
unfolding tool_calls_from
tool_calls_from-enters id i c m [] ms entries d le e ne cl = cc (drop-nil i c ms d le)
tool_calls_from-enters id i c m (x ∷ rest) ms entries d le e ne cl = elim (Bool-cases (c == i)) [
  | inl here ↦
      let same : c ≡ i = ground arith in
      let is_m : m ≡ x = ground (arith, drop-cons i ms d) in
      let call : is_assistant x.role ≡ true = rw (← is_m) (ground arith) in
      rw call (
        tool_calls_from-Has id (suc i) rest (add_calls i x.tool_calls entries)
          (add_calls-enters id i x.tool_calls entries ne (rw (← is_m) (ground arith))))
  | inr later ↦
      tool_calls_from-enters id (suc i) c m rest ms
        (if is_assistant x.role then add_calls i x.tool_calls entries else entries)
        (drop-cons i ms d).1 (ground arith) e ne cl
]

pub build-enters :
    (ms : List Message) (id : String) (c : ℕ) (m : Message)
    → get_elem? ms c ≡ some m
    → id ≢ ""
    → calls id m ≡ true
    → (k : ℕ) × (lookup id (build_tool_call_map ms) ≡ some k)
unfolding build_tool_call_map Has
build-enters ms id c m e ne cl = tool_calls_from-enters id 0 c m ms ms [] refl (omega arith) e ne cl
