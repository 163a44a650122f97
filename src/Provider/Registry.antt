-- ===== src/Provider/Registry.antt =====
-- internal/provider/registry.go and the requests of llm.go. A registry is a function of the name, and
-- the nil one is `none`. A provider answers the calls of one turn by their number, from 0; what its
-- Models returns is left out.
use gobot.Prelude.{ℕ, Bool, Option, none, some, List, String, str_eq, if◌then◌else◌}
use gobot.Prelude.Int.{ℤ}
use gobot.Prelude.Results.{plain, Result, ok, err}
use gobot.Agent.Message.{Message}

-- `parameters` is the encoded JSON schema.
pub record ToolDeclaration : Type 0 where
  pub name : String
  pub description : String
  pub parameters : String
  pub side_effecting : Bool

-- `temperature` is the text of the number; nothing reads it.
pub record ChatRequest : Type 0 where
  pub model : String
  pub messages : List Message
  pub system_instruction : String
  pub tools : List ToolDeclaration
  pub max_tokens : ℤ
  pub temperature : String

pub record TokenUsage : Type 0 where
  pub prompt_tokens : ℤ
  pub completion_tokens : ℤ
  pub total_tokens : ℤ

pub record ChatResponse : Type 0 where
  pub message : Message
  pub usage : TokenUsage

pub record Provider : Type 0 where
  pub name : String
  pub chat : ℕ → ChatRequest → Result ChatResponse

pub record Registry : Type 0 where
  pub providers : String → Option Provider

unfoldable pub register : Provider → Registry → Result (Unit {0}) × Registry
register p r = elim (r.providers p.name) [
  | some dup ↦ (err (plain "provider already registered"), r)
  | none ↦ (
    ok tt,
    record { providers = λ name. if str_eq name p.name then some p else r.providers name },
  )
]

unfoldable pub get : Option Registry → String → Result Provider
get none name = err (plain "provider not found")
get (some r) name = elim (r.providers name) [
  | none ↦ err (plain "provider not found")
  | some p ↦ ok p
]
