-- ===== src/Provider/Routing.antt =====
-- internal/provider/routing.go: which model answers a turn. Beside the result, Chat gives the calls
-- that it makes, in order. The functions of package strings are parameters.
pub mod Routes
use gobot.Prelude.{
  ℕ, Bool, true, false, not, ◌&&◌, ltb, Option, none, some, List, [], ◌∷◌, String, str_eq,
  if◌then◌else◌,
}
use gobot.Prelude.Int.{ℤ, pos}
use gobot.Prelude.Results.{Err, wrapped, Result, ok, err}
use gobot.Agent.Message.{Message, Role, MessageContent, content_string}
use gobot.Provider.Registry.{ChatRequest, ChatResponse, Provider}

-- strings.HasPrefix (the prefix second), TrimSpace and ToUpper, and len.
pub record Strings : Type 0 where
  pub has_prefix : String → String → Bool
  pub trim_space : String → String
  pub to_upper : String → String
  pub byte_length : String → ℕ

pub record RoutingConfig : Type 0 where
  pub enabled : Bool
  pub manager_model : String

-- The resolver is its Get, where there is one.
pub record RoutingProvider : Type 0 where
  pub resolver : Option (String → Result Provider)
  pub executor : Provider
  pub manager : Provider
  pub cfg : RoutingConfig

pub data Target : Type 0 where
  openrouter executor_model manager : Target

pub record Turn : Type 0 where
  pub result : Result ChatResponse
  pub calls : List (Target × ChatRequest)

abbrev pub wrap : String → Result ChatResponse → Result ChatResponse
wrap label (ok resp) = ok resp
wrap label (err e) = err (wrapped label e)

unfoldable pub prefix_provider : Strings → RoutingProvider → String → Option Provider
prefix_provider strings p model =
    if strings.has_prefix model "openrouter/"
    then elim p.resolver [
      | none ↦ none
      | some get ↦ elim (get "openrouter") [ err e ↦ none | ok prov ↦ some prov ]
    ]
    else none

abbrev pub manager_request : RoutingProvider → ChatRequest → ChatRequest
manager_request p req = record req { model = p.cfg.manager_model; tools = [] }

unfoldable pub manager_chat : RoutingProvider → ℕ → ChatRequest → Turn
manager_chat p n req = record {
  result = wrap "manager chat" (p.manager.chat n (manager_request p req));
  calls = (manager, manager_request p req) ∷ [];
}

unfoldable pub executor_chat : RoutingProvider → ℕ → ChatRequest → Turn
executor_chat p n req = record {
  result = wrap "executor chat" (p.executor.chat n req);
  calls = (executor_model, req) ∷ [];
}

abbrev pub no_tools : ChatRequest → Bool
no_tools req = elim req.tools [ [] ↦ true | t ∷ ts ↦ false ]

abbrev pub last_message : List Message → String
last_message [] = ""
last_message (m ∷ []) = content_string m.content
last_message (m ∷ n ∷ ms) = last_message (n ∷ ms)

abbrev pub user_message : String → Message
user_message text = record {
  role = Role.user;
  content = some (record { str = some text; items = [] });
  name = none;
  tool_call_id = none;
  tool_calls = [];
  reasoning_content = none;
  thinking_blocks = [];
  created_at = "";
}

unfoldable pub classify_request : RoutingProvider → ChatRequest → ChatRequest
classify_request p req = record {
  model = p.cfg.manager_model;
  messages = user_message (last_message req.messages) ∷ [];
  system_instruction =
      "Does the user message require tool execution, deep technical analysis, or complex reasoning? Reply ONLY with 'YES' or 'NO'.";
  tools = [];
  max_tokens = pos 0;
  temperature = "0";
}

abbrev pub decision : Strings → ChatResponse → String
decision strings resp = strings.to_upper (strings.trim_space (content_string resp.message.content))

-- The end of Chat, for the answer of the classification.
unfoldable pub escalate : Strings → RoutingProvider → ChatRequest → Result ChatResponse → Turn
escalate strings p req (err e) = executor_chat p 1 req
escalate strings p req (ok resp) =
    if str_eq (decision strings resp) "YES"
    then executor_chat p 1 req
    else if not (str_eq (decision strings resp) "NO")
    then executor_chat p 1 req
    else manager_chat p 1 req

unfoldable pub chat : Strings → RoutingProvider → ChatRequest → Turn
chat strings p req = elim (prefix_provider strings p req.model) [
  | some op ↦ record {
    result = wrap "openrouter prefix chat" (op.chat 0 req);
    calls = (openrouter, req) ∷ [];
  }
  | none ↦
      if not p.cfg.enabled
      then record {
        result = wrap "executor chat" (p.executor.chat 0 req);
        calls = (executor_model, req) ∷ [];
      }
      else if no_tools req && ltb (strings.byte_length (last_message req.messages)) 100
      then manager_chat p 0 req
      else let asked = classify_request p req in
        let turn = escalate strings p req (p.manager.chat 0 asked) in
        record { result = turn.result; calls = (manager, asked) ∷ turn.calls }
]
