-- ===== src/Audit/Redact.antt =====
-- internal/audit/redact.go: what the log handler takes out of a record before it passes it on. The
-- regular expressions and strings.Contains are parameters.
pub mod Laws
use gobot.Prelude.{Bool, true, false, not, List, [], ◌∷◌, map, String, str_eq, if◌then◌else◌}

-- slog.Attr by the kind of its resolved value: a text, a group, or another value, of which only the
-- text form matters. A group without attributes is none here, as slog leaves it out of a record.
mutual
  pub data Attr : Type 0 where
    string_attr : String → String → Attr
    group_attr : String → Attrs → Attr
    other_attr : String → String → Attr

  pub data Attrs : Type 0 where
    no_attrs : Attrs
    cons : Attr → Attrs → Attrs

-- slog.Record, less its time, level and program counter, which are passed on.
pub record Record : Type 0 where
  pub message : String
  pub attrs : Attrs

abbrev pub trigger_prefixes : List String
trigger_prefixes = "AIzaSy" ∷ "ya29." ∷ "xoxb-" ∷ []

unfoldable pub replace_all : List (String → String) → String → String
replace_all [] s = s
replace_all (f ∷ fs) s = replace_all fs (f s)

-- `contains s t` is strings.Contains, and `replacers` are the calls of ReplaceAllString with
-- "[REDACTED]" for the patterns, in order.
module _ (contains : String → String → Bool) where
  unfoldable pub any_contained : String → List String → Bool
  any_contained s [] = false
  any_contained s (p ∷ ps) = if contains s p then true else any_contained s ps

  unfoldable pub needs_redaction : String → Bool
  unfolding any_contained
  needs_redaction s = any_contained s trigger_prefixes

module _ (contains : String → String → Bool) (replacers : List (String → String)) where
  unfoldable pub redact_string : String → String
  unfolding needs_redaction replace_all
  redact_string s = if not (needs_redaction contains s) then s else replace_all replacers s

  unfoldable pub redact_text : String → String → Attr
  unfolding redact_string
  redact_text key s =
      let rs = redact_string s in if str_eq rs s then other_attr key s else string_attr key rs

  unfoldable mutual
    pub redact_attr : Attr → Attr
    redact_attr (string_attr key s) = string_attr key (redact_string s)
    redact_attr (group_attr key attrs) = group_attr key (redact_attrs attrs)
    redact_attr (other_attr key s) = redact_text key s

    pub redact_attrs : Attrs → Attrs
    redact_attrs no_attrs = no_attrs
    redact_attrs (cons a rest) = cons (redact_attr a) (redact_attrs rest)

  -- The record that reaches the inner handler.
  unfoldable pub handle : Bool → Record → Record
  unfolding redact_attrs redact_string
  handle enabled r =
      if not enabled
      then r
      else record { message = redact_string r.message; attrs = redact_attrs r.attrs }
