-- ===== src/Agent/Hooks.antt =====
-- internal/agent/hooks.go: the chains of hooks. A hook that errs gives its error; the context and
-- the tool's arguments are part of the hook.
use mathlib.Core.List.{map-append}
use gobot.Prelude.{
  ◌≡◌, ◌≢◌, refl, ap, ◌∙◌, ◌⊎◌, inl, inr, true, List, [], ◌∷◌, ◌++◌, map, String, str_eq, eq_iff,
  arith, Bool-cases, if◌then◌else◌,
}

-- The pair of a result and an error: with an error the result is empty.
pub data HookOutcome (Error : Type 0) : Type 0 where
  result : String → HookOutcome Error
  failure : Error → HookOutcome Error

-- The five lists of hooks, over the types of messages and tool results.
pub record Hooks (Message Value Error : Type 0) : Type 0 where
  pub pre_history : List (List Message → List Message)
  pub pre_prompt : List (String → String)
  pub post_tool : List (String → Value → Value)
  pub pre_tool : List (String → String → HookOutcome Error)
  pub post_dispatch : List (String → String → String)

module _ {Error : Type 0} where
  -- RunPreTool: the first error or result that is not empty ends the chain.
  unfoldable pub run_pre_tool :
      List (String → String → HookOutcome Error) → String → String → HookOutcome Error
  run_pre_tool [] session_key tool_name = result ""
  run_pre_tool (fn ∷ fns) session_key tool_name =
      let rest = run_pre_tool fns session_key tool_name in
      elim (fn session_key tool_name) [
        | failure err ↦ failure err
        | result r ↦ if str_eq r "" then rest else result r
      ]

  -- Every hook of the list gives no error and no result.
  abbrev pub AllPass : List (String → String → HookOutcome Error) → String → String → Type 0
  AllPass [] session_key tool_name = Unit {0}
  AllPass (fn ∷ fns) session_key tool_name =
      (fn session_key tool_name ≡ result "") × AllPass fns session_key tool_name

  text_of : HookOutcome Error → String
  text_of (result r) = r
  text_of (failure err) = ""

  outcome-cases :
      (o : HookOutcome Error)
      → ((r : String) × (o ≡ result r)) ⊎ ((err : Error) × (o ≡ failure err))
  outcome-cases (result r) = inl (r, refl)
  outcome-cases (failure err) = inr (err, refl)

  -- A tool goes on to be executed, without an error and without a result in its place, only if
  -- every registered hook let it pass; and the hooks after a first one that does not pass have no
  -- effect, whatever they are.
  pub run_pre_tool-AllPass :
      (fns : List (String → String → HookOutcome Error)) (session_key tool_name : String)
      → (run_pre_tool fns session_key tool_name ≡ result "" → AllPass fns session_key tool_name)
        × ((fn : String → String → HookOutcome Error)
              (after : List (String → String → HookOutcome Error))
            → AllPass fns session_key tool_name
            → fn session_key tool_name ≢ result ""
            → run_pre_tool (fns ++ fn ∷ after) session_key tool_name ≡ fn session_key tool_name)
  unfolding run_pre_tool text_of
  run_pre_tool-AllPass [] session_key tool_name = (
    λ h. tt,
    λ fn after none_before stops. elim (outcome-cases (fn session_key tool_name)) [
      | inl (r, gives) ↦
          let not_empty : r ≢ "" = λ e. stops (gives ∙ ap result e) in ground (arith, eq_iff r "")
      | inr (err, fails) ↦ ground arith
    ],
  )
  run_pre_tool-AllPass (f ∷ fns) session_key tool_name =
      let (passes, decides) = run_pre_tool-AllPass fns session_key tool_name in
      (
        λ h. elim (outcome-cases (f session_key tool_name)) [
          | inr (err, fails) ↦ ground arith
          | inl (r, gives) ↦ elim (Bool-cases (str_eq r "")) [
            | inl empty ↦
                let same : r ≡ "" = ground (arith, eq_iff r "") in
                (gives ∙ ap result same, passes (ground arith))
            | inr full ↦
                let is_empty : ◌≡◌ {A = HookOutcome Error} (result r) (result "") = ground arith in
                let same : r ≡ "" = ap text_of is_empty in absurd (ground (arith, eq_iff r ""))
          ]
        ],
        λ fn after (first, others) stops.
            let rest = decides fn after others stops in
            let empty : str_eq "" "" ≡ true = refl in ground (arith, rest, first, empty),
      )

-- The chains that transform: each hook gets what the one before it gave.
unfoldable pub run_chain {ℓ} : {A : Type ℓ} → List (A → A) → A → A
run_chain [] a = a
run_chain (fn ∷ fns) a = run_chain fns (fn a)

run_chain-append {ℓ} :
    {A : Type ℓ} (fns : List (A → A)) (fn : A → A) (a : A)
    → run_chain (fns ++ fn ∷ []) a ≡ fn (run_chain fns a)
unfolding run_chain
run_chain-append [] fn a = refl
run_chain-append (f ∷ fns) fn a = run_chain-append fns fn (f a)

module _ {Message Value Error : Type 0} where
  unfoldable pub register_pre_history :
      (List Message → List Message) → Hooks Message Value Error → Hooks Message Value Error
  register_pre_history fn h = record h { pre_history = h.pre_history ++ fn ∷ [] }

  unfoldable pub register_pre_prompt :
      (String → String) → Hooks Message Value Error → Hooks Message Value Error
  register_pre_prompt fn h = record h { pre_prompt = h.pre_prompt ++ fn ∷ [] }

  unfoldable pub register_post_tool :
      (String → Value → Value) → Hooks Message Value Error → Hooks Message Value Error
  register_post_tool fn h = record h { post_tool = h.post_tool ++ fn ∷ [] }

  unfoldable pub register_post_dispatch :
      (String → String → String) → Hooks Message Value Error → Hooks Message Value Error
  register_post_dispatch fn h = record h { post_dispatch = h.post_dispatch ++ fn ∷ [] }

  unfoldable pub run_pre_history : Hooks Message Value Error → List Message → List Message
  unfolding run_chain
  run_pre_history h messages = run_chain h.pre_history messages

  unfoldable pub run_pre_prompt : Hooks Message Value Error → String → String
  unfolding run_chain
  run_pre_prompt h prompt = run_chain h.pre_prompt prompt

  unfoldable pub run_post_tool : Hooks Message Value Error → String → Value → Value
  unfolding run_chain
  run_post_tool h tool_name value = run_chain (map (λ fn. fn tool_name) h.post_tool) value

  unfoldable pub run_post_dispatch : Hooks Message Value Error → String → String → String
  unfolding run_chain
  run_post_dispatch h session_key response =
      run_chain (map (λ fn. fn session_key) h.post_dispatch) response

  -- A hook that is registered last transforms what the hooks before it give, in each of the four
  -- chains.
  pub register-run_last :
      (h : Hooks Message Value Error) (on_history : List Message → List Message)
      → (on_prompt : String → String) → (on_tool : String → Value → Value)
      → (on_dispatch : String → String → String)
      → ((messages : List Message)
          → run_pre_history (register_pre_history on_history h) messages
            ≡ on_history (run_pre_history h messages))
        × ((prompt : String)
            → run_pre_prompt (register_pre_prompt on_prompt h) prompt
              ≡ on_prompt (run_pre_prompt h prompt))
        × ((tool_name : String) (value : Value)
            → run_post_tool (register_post_tool on_tool h) tool_name value
              ≡ on_tool tool_name (run_post_tool h tool_name value))
        × ((session_key response : String)
            → run_post_dispatch (register_post_dispatch on_dispatch h) session_key response
              ≡ on_dispatch session_key (run_post_dispatch h session_key response))
  unfolding run_pre_history run_pre_prompt run_post_tool run_post_dispatch register_pre_history
      register_pre_prompt register_post_tool register_post_dispatch
  register-run_last h on_history on_prompt on_tool on_dispatch = (
    λ messages. run_chain-append h.pre_history on_history messages,
    λ prompt. run_chain-append h.pre_prompt on_prompt prompt,
    λ tool_name value.
        ap (λ fns. run_chain fns value) (map-append (λ fn. fn tool_name) h.post_tool (on_tool ∷ []))
        ∙ run_chain-append (map (λ fn. fn tool_name) h.post_tool) (on_tool tool_name) value,
    λ session_key response.
        ap (λ fns. run_chain fns response)
          (map-append (λ fn. fn session_key) h.post_dispatch (on_dispatch ∷ []))
        ∙ run_chain-append (map (λ fn. fn session_key) h.post_dispatch) (on_dispatch session_key)
            response,
  )
