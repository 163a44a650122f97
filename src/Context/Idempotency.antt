-- ===== src/Context/Idempotency.antt =====
-- internal/context/idempotency.go: keys of tool calls with their results. The table is a function of
-- the primary key; which queries fail is an input, and the time formats are parameters.
pub mod Replays
use gobot.Prelude.{Bool, true, false, Option, none, some, String, str_eq, if◌then◌else◌}
use gobot.Prelude.Int.{ℤ, ltb_ℤ, ◌-ℤ◌}
use gobot.Prelude.Results.{Err, sql_error, wrapped, plain, Result, ok, err}

pub record IdempotencyRecord : Type 0 where
  pub tool_name : String
  pub params_hash : String
  pub result : String
  pub session_key : String
  pub created_at : String

abbrev pub Keys : Type 0
Keys = String → Option IdempotencyRecord

abbrev pub put_key : String → Option IdempotencyRecord → Keys → Keys
put_key key r keys = λ k. if str_eq k key then r else keys k

pub record CheckResult : Type 0 where
  pub found : Bool
  pub cached_result : String
  pub hash_mismatch : Bool

-- time.Parse with the format RFC3339 and with the other one, and what CURRENT_TIMESTAMP writes.
pub record Times : Type 0 where
  pub parse_rfc3339 : String → Option ℤ
  pub parse_sqlite : String → Option ℤ
  pub current_timestamp : ℤ → String

abbrev pub not_found : CheckResult
not_found = record { found = false; cached_result = ""; hash_mismatch = false }

abbrev pub parse_created_at : Times → String → Option ℤ
parse_created_at times text = elim (times.parse_rfc3339 text) [
  | some t ↦ some t
  | none ↦ times.parse_sqlite text
]

-- The end of Check, for a row with the right parameters; a DELETE that fails is ignored.
unfoldable pub check_age :
    Times → ℤ → Bool → ℤ → String → IdempotencyRecord → Keys → Result CheckResult × Keys
check_age times ttl delete_fails now key r keys = elim (parse_created_at times r.created_at) [
  | none ↦ (err (plain "parse created_at"), keys)
  | some created ↦
      if ltb_ℤ ttl (now -ℤ created)
      then (ok not_found, if delete_fails then keys else put_key key none keys)
      else (ok (record { found = true; cached_result = r.result; hash_mismatch = false }), keys)
]

-- Check. With a mismatch the source returns both a result and the error; the result is then one
-- with `HashMismatch` set, and stands in the error here.
pub data Checked : Type 0 where
  answer : Result CheckResult → Checked
  mismatch : CheckResult → String → Checked

abbrev pub answered : Result CheckResult × Keys → Checked × Keys
answered (r, keys) = (answer r, keys)

unfoldable pub check : Times → ℤ → Bool → Bool → ℤ → String → String → Keys → Checked × Keys
unfolding check_age
check times ttl select_fails delete_fails now key params_hash keys =
    if select_fails
    then (answer (err (wrapped "check idempotency key" sql_error)), keys)
    else elim (keys key) [
      | none ↦ (answer (ok not_found), keys)
      | some r ↦
          if str_eq r.params_hash params_hash
          then answered (check_age times ttl delete_fails now key r keys)
          else (
            mismatch (record { found = true; cached_result = ""; hash_mismatch = true }) key,
            keys,
          )
    ]

-- Store: an INSERT for a key that is there breaks the primary key and fails.
unfoldable pub store :
    Times → Bool → ℤ → String → String → String → String → String → Keys → Result (Unit {0}) × Keys
store times insert_fails now key tool_name params_hash result session_key keys =
    if insert_fails
    then (err (wrapped "store idempotency key" sql_error), keys)
    else elim (keys key) [
      | some r ↦ (err (wrapped "store idempotency key" sql_error), keys)
      | none ↦ (
        ok tt,
        put_key key
            (some (record {
              tool_name = tool_name;
              params_hash = params_hash;
              result = result;
              session_key = session_key;
              created_at = times.current_timestamp now;
            }))
            keys,
      )
    ]

-- CleanupExpired: `is_before` compares texts as SQLite does, and `cutoff` is the text of the time
-- that lies the TTL before now.
unfoldable pub cleanup_expired :
    (String → String → Bool) → String → Bool → Keys → Result (Unit {0}) × Keys
cleanup_expired is_before cutoff delete_fails keys =
    if delete_fails then (err (wrapped "cleanup expired idempotency keys" sql_error), keys) else (
      ok tt,
      λ k. elim (keys k) [
        | none ↦ none
        | some r ↦ if is_before r.created_at cutoff then none else some r
      ],
    )
