-- ===== src/Provider/Routing/Routes.antt =====
-- Routing: which request is sent last, to which model, and what comes back.
use gobot.Prelude.{
  ◌≡◌, refl, sym, subst, ◌⊎◌, inl, inr, length, ltb, ◌&&◌, true, Option, some, List, [], ◌∷◌, ◌++◌,
  String, str_eq, eq_iff, arith, Bool-cases, Option-cases,
}
use gobot.Prelude.Results.{Result, ok, err}
use gobot.Provider.Registry.{ChatRequest, ChatResponse, Provider}
use gobot.Provider.Routing.{
  Strings, RoutingProvider, Target, Turn, wrap, prefix_provider, manager_request, manager_chat,
  executor_chat, no_tools, last_message, classify_request, decision, escalate, chat,
}

abbrev label : Target → String
label Target.openrouter = "openrouter prefix chat"
label Target.executor_model = "executor chat"
label Target.manager = "manager chat"

abbrev sent : Target → RoutingProvider → ChatRequest → ChatRequest
sent Target.openrouter p req = req
sent Target.executor_model p req = req
sent Target.manager p req = manager_request p req

abbrev provider_of : Target → Strings → RoutingProvider → ChatRequest → Option Provider
provider_of Target.openrouter strings p req = prefix_provider strings p req.model
provider_of Target.executor_model strings p req = some p.executor
provider_of Target.manager strings p req = some p.manager

-- The manager was asked whether the message needs the executor, and its answer is NO.
abbrev pub SaysNo : Strings → RoutingProvider → ChatRequest → Type 0
SaysNo strings p req =
    (resp : ChatResponse) × (p.manager.chat 0 (classify_request p req) ≡ ok resp)
    × (decision strings resp ≡ "NO")

abbrev pub Allowed : Target → Strings → RoutingProvider → ChatRequest → Type 0
Allowed Target.openrouter strings p req = strings.has_prefix req.model "openrouter/" ≡ true
Allowed Target.executor_model strings p req = Unit {0}
Allowed Target.manager strings p req =
    (p.cfg.enabled ≡ true)
    × (((no_tools req ≡ true) × (ltb (strings.byte_length (last_message req.messages)) 100 ≡ true))
        ⊎ SaysNo strings p req)

-- The turn's last call is the one of `target`, after the given calls.
abbrev pub IsAnswered :
    Target → Strings → RoutingProvider → ChatRequest → List (Target × ChatRequest) → Turn → Type 0
IsAnswered target strings p req before turn =
    (q : Provider) × (provider_of target strings p req ≡ some q)
    × (turn.result ≡ wrap (label target) (q.chat (length before) (sent target p req)))
    × (turn.calls ≡ before ++ ((target, sent target p req) ∷ []))
    × Allowed target strings p req

-- The call that asks the manager for the classification.
abbrev pub question : RoutingProvider → ChatRequest → List (Target × ChatRequest)
question p req = (Target.manager, classify_request p req) ∷ []

-- No call, or the one that asks the manager for the classification.
abbrev pub IsPrelude : RoutingProvider → ChatRequest → List (Target × ChatRequest) → Type 0
IsPrelude p req before = (before ≡ []) ⊎ (before ≡ question p req)

-- The turn that asks the question first.
abbrev question_turn : Strings → RoutingProvider → ChatRequest → Turn
question_turn strings p req =
    let turn = escalate strings p req (p.manager.chat 0 (classify_request p req)) in
    record { result = turn.result; calls = (Target.manager, classify_request p req) ∷ turn.calls }

prefix-forced :
    (strings : Strings) (p : RoutingProvider) (model : String) (q : Provider)
    → prefix_provider strings p model ≡ some q
    → strings.has_prefix model "openrouter/" ≡ true
unfolding prefix_provider
prefix-forced strings p model q h = elim (Bool-cases (strings.has_prefix model "openrouter/")) [
  | inl yes_prefix ↦ yes_prefix
  | inr other ↦ absurd (ground arith)
]

escalated :
    (strings : Strings) (p : RoutingProvider) (req : ChatRequest) (answer : Result ChatResponse)
    → p.manager.chat 0 (classify_request p req) ≡ answer
    → p.cfg.enabled ≡ true
    → let turn = escalate strings p req answer in
      (target : Target) × IsAnswered target strings p req (question p req) (record {
        result = turn.result;
        calls = (Target.manager, classify_request p req) ∷ turn.calls;
      })
unfolding escalate executor_chat manager_chat
escalated strings p req (err e) h on = (Target.executor_model, (p.executor, refl, refl, refl, tt))
escalated strings p req (ok resp) h on = elim (Bool-cases (str_eq (decision strings resp) "YES")) [
  | inl hard ↦ (Target.executor_model, (p.executor, refl, rw hard refl, rw hard refl, tt))
  | inr soft ↦ elim (Bool-cases (str_eq (decision strings resp) "NO")) [
    | inr unclear ↦ (
      Target.executor_model,
      (p.executor, refl, rw (soft, unclear) refl, rw (soft, unclear) refl, tt),
    )
    | inl easy ↦
        let no_reply : SaysNo strings p req =
          (resp, h, (eq_iff (decision strings resp) "NO").0 easy) in
        (
          Target.manager,
          (p.manager, refl, rw (soft, easy) refl, rw (soft, easy) refl, (on, inr no_reply)),
        )
  ]
]

-- Chat ends with one call whose result it returns, an error wrapped: to the provider that the prefix
-- openrouter/ of the model forces or to the executor, with the request as it is, or to the manager,
-- with its model and no tools. The manager gets it only with routing enabled, and only if the request
-- has no tools and a short last message or the manager itself answered NO. No call but that
-- question comes before.
pub chat-route :
    (strings : Strings) (p : RoutingProvider) (req : ChatRequest)
    → (before : List (Target × ChatRequest)) × IsPrelude p req before
      × (target : Target) × IsAnswered target strings p req before (chat strings p req)
unfolding chat manager_chat
chat-route strings p req = elim (Option-cases (prefix_provider strings p req.model)) [
  | inr (op, forced) ↦ (
    [],
    inl refl,
    Target.openrouter,
    (
      op,
      forced,
      rw (chat, forced) refl,
      rw (chat, forced) refl,
      prefix-forced strings p req.model op forced,
    ),
  )
  | inl free ↦ elim (Bool-cases p.cfg.enabled) [
    | inr off ↦ (
      [],
      inl refl,
      Target.executor_model,
      (p.executor, refl, rw (chat, free, off) refl, rw (chat, free, off) refl, tt),
    )
    | inl on ↦
        elim (Bool-cases
          (no_tools req && ltb (strings.byte_length (last_message req.messages)) 100)) [
            | inl short ↦ (
              [],
              inl refl,
              Target.manager,
              (
                p.manager,
                refl,
                rw (chat, free, on, short, manager_chat) refl,
                rw (chat, free, on, short, manager_chat) refl,
                (on, inl (ground arith, ground arith)),
              ),
            )
            | inr long ↦
                let asked : Turn = question_turn strings p req in
                let (target, answered) =
                  escalated strings p req (p.manager.chat 0 (classify_request p req)) refl on in
                let same : chat strings p req ≡ asked = rw (chat, free, on, long) refl in
                (
                  question p req,
                  inr refl,
                  target,
                  subst (λ t. IsAnswered target strings p req (question p req) t) (sym same)
                      answered,
                )
          ]
  ]
]
