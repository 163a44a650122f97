-- ===== src/Tests/Routing.antt =====
-- Runs of internal/provider/routing.go: a request with a tool, of which the manager says no, and one
-- that forces the registered provider.
use gobot.Prelude.{◌≡◌, refl, true, false, none, some, List, [], ◌∷◌, String, str_eq}
use gobot.Prelude.Int.{pos}
use gobot.Prelude.Results.{ok}
use gobot.Agent.Message.{content_string}
use gobot.Provider.Registry.{ChatRequest, TokenUsage, Provider, Registry, register, get}
use gobot.Provider.Routing.{
  Strings, RoutingProvider, Target, user_message, chat, prefix_provider, manager_chat, escalate,
  executor_chat, classify_request, manager_request,
}
use gobot.Provider.Routing.Routes.{IsPrelude, IsAnswered, chat-route}

-- The one text with the prefix is the model of `forced`, and the texts are trimmed capitals.
abbrev strings : Strings
strings = record {
  has_prefix = λ text prefix. str_eq text "openrouter/auto";
  trim_space = λ text. text;
  to_upper = λ text. text;
  byte_length = λ text. 100;
}

abbrev no_usage : TokenUsage
no_usage = record { prompt_tokens = pos 0; completion_tokens = pos 0; total_tokens = pos 0 }

abbrev says : String → String → Provider
says name text = record {
  name = name;
  chat = λ n req. ok (record { message = user_message text; usage = no_usage });
}

abbrev registry : Registry
registry = (register (says "openrouter" "hello") (record { providers = λ name. none })).1

abbrev routing : RoutingProvider
routing = record {
  resolver = some (get (some registry));
  executor = says "executor" "done";
  manager = says "manager" "NO";
  cfg = record { enabled = true; manager_model = "small" };
}

abbrev request : String → ChatRequest
request model = record {
  model = model;
  messages = user_message "hello" ∷ [];
  system_instruction = "";
  tools =
      record { name = "search"; description = ""; parameters = "{}"; side_effecting = false } ∷ [];
  max_tokens = pos 0;
  temperature = "0";
}

chat-small :
    (chat strings routing (request "large")).calls
    ≡ (Target.manager, classify_request routing (request "large"))
      ∷ (Target.manager, manager_request routing (request "large"))
      ∷ []
unfolding chat prefix_provider manager_chat escalate executor_chat content_string
chat-small = refl

chat-forced :
    (chat strings routing (request "openrouter/auto")).calls
    ≡ (Target.openrouter, request "openrouter/auto") ∷ []
unfolding chat prefix_provider get register
chat-forced = refl

chat-route_example :
    (before : List (Target × ChatRequest)) × IsPrelude routing (request "large") before
    × (target : Target) × IsAnswered target strings routing
        (request "large")
        before
        (chat strings routing (request "large"))
chat-route_example = chat-route strings routing (request "large")
