-- ===== src/State/Types.antt =====
-- internal/state/types.go, with the errors and results that the package's functions return.
pub use gobot.Prelude.Results.{
  Err, not_exist, os_error, json_error, too_long, wrapped, plain, Result, ok, err, Result-cases,
}
use gobot.Prelude.{Bool, true, false, not, Option, String}
use gobot.Prelude.Int.{ℤ}

-- `WorkflowStatus` is a string: `other` is any value beside the five constants.
pub data Status : Type 0 where
  pending running paused completed failed : Status
  other : String → Status

-- Times are nanoseconds; `data` is raw JSON text.
pub record WorkflowState : Type 0 where
  pub id : String
  pub status : Status
  pub version : ℤ
  pub created_at : ℤ
  pub updated_at : ℤ
  pub data_json : String

pub record JournalEntry : Type 0 where
  pub timestamp : ℤ
  pub operation : String
  pub payload : String

unfoldable pub is_terminal : Status → Bool
is_terminal completed = true
is_terminal failed = true
is_terminal _ = false

unfoldable pub is_active : Status → Bool
unfolding is_terminal
is_active s = not (is_terminal s)

-- os.IsNotExist looks at an error of package os itself; it does not unwrap.
unfoldable pub is_not_exist : Err → Bool
is_not_exist not_exist = true
is_not_exist _ = false

-- What the package uses of encoding/json and fmt: texts of values, and their readings.
pub record Codec : Type 0 where
  pub encode_state : WorkflowState → Option String
  pub decode_state : String → Option WorkflowState
  pub encode_entry : JournalEntry → Option String
  pub decode_entry : String → Option JournalEntry
  pub status_payload : Status → String
  pub decode_status : String → Option Status
