-- ===== src/Context/Pairing.antt =====
-- internal/context/pairing.go: authorized chats and pairing codes. The tables are values; which
-- queries fail, the clock and the random code are inputs. A time is a number of seconds.
pub mod Codes
use gobot.Prelude.{
  ℕ, ◌+◌, ◌≤◌, ltb, Bool, true, false, not, ◌&&◌, Option, none, some, List, [], ◌∷◌, String, str_eq,
  filter, if◌then◌else◌, ◌==◌,
}
use gobot.Prelude.Int.{ℤ, pos_part, neg_part}
use gobot.Prelude.Results.{Err, sql_error, wrapped, plain, Result, ok, err}

pub record PairingCode : Type 0 where
  pub code : String
  pub chat_id : ℤ
  pub expires_at : ℕ

-- `authorized chat` is the column authorized_by of the chat's row, if there is one.
pub record PairingStore : Type 0 where
  pub authorized : ℤ → Option String
  pub codes : List PairingCode

abbrev pub same_chat : ℤ → ℤ → Bool
same_chat a b = (pos_part a == pos_part b) && (neg_part a == neg_part b)

unfoldable pub is_authorized : Bool → ℤ → PairingStore → Result Bool
is_authorized select_fails chat s =
    if select_fails
    then err (wrapped "query authorized users" sql_error)
    else ok (elim (s.authorized chat) [ none ↦ false | some by ↦ true ])

-- The first row with the property; `expires_at > datetime('now')` is part of it.
unfoldable pub select_first : (PairingCode → Bool) → List PairingCode → Option PairingCode
select_first p [] = none
select_first p (c ∷ cs) = let rest = select_first p cs in if p c then some c else rest

abbrev pub is_live : ℕ → PairingCode → Bool
is_live now c = ltb now c.expires_at

abbrev pub has_code : String → PairingCode → Bool
has_code code c = str_eq c.code code

abbrev pub authorize : ℤ → String → PairingStore → PairingStore
authorize chat by s = record s {
  authorized = λ other. if same_chat other chat then some by else s.authorized other;
}

pub data PairingQuery : Type 0 where
  select_code delete_expired insert_code select_chat insert_user delete_code : PairingQuery

-- `rand_code` is the code that crypto/rand gives, if it gives one. `LIMIT 1` takes some live row of
-- the chat: the first here. An INSERT of a code that is there breaks the primary key.
unfoldable pub get_or_create_code :
    (PairingQuery → Bool) → ℕ → Option String → ℤ → PairingStore → Result String × PairingStore
unfolding select_first
get_or_create_code fails now rand_code chat s =
    if fails select_code
    then (err (wrapped "query pairing code" sql_error), s)
    else elim (select_first (λ c. same_chat c.chat_id chat && is_live now c) s.codes) [
      | some c ↦ (ok c.code, s)
      | none ↦
          if fails delete_expired
          then (err (wrapped "delete expired codes" sql_error), s)
          else let left =
              filter (λ c. not (same_chat c.chat_id chat && not (is_live now c))) s.codes in
            let s' : PairingStore = record s { codes = left } in
            elim rand_code [
              | none ↦ (err (plain "pairing: generate code"), s')
              | some new ↦ elim (select_first (has_code new) left) [
                | some taken ↦ (err (wrapped "insert pairing code" sql_error), s')
                | none ↦
                    if fails insert_code
                    then (err (wrapped "insert pairing code" sql_error), s')
                    else (
                      ok new,
                      record s {
                        codes =
                            record { code = new; chat_id = chat; expires_at = now + 86400 } ∷ left;
                      },
                    )
              ]
            ]
    ]

-- A failed DELETE of the used code is only logged. `INSERT OR REPLACE` leaves authorized_by empty.
unfoldable pub authorize_by_code :
    (PairingQuery → Bool) → ℕ → String → PairingStore → Result ℤ × PairingStore
unfolding select_first
authorize_by_code fails now code s =
    if fails select_chat
    then (err (wrapped "query chat id by code" sql_error), s)
    else elim (select_first (λ c. has_code code c && is_live now c) s.codes) [
      | none ↦ (err (plain "pairing: code not found or expired"), s)
      | some c ↦
          if fails insert_user
          then (err (wrapped "insert authorized user" sql_error), s)
          else let s' = authorize c.chat_id "" s in
            (
              ok c.chat_id,
              if fails delete_code
                  then s'
                  else record s' { codes = filter (λ d. not (has_code code d)) s.codes },
            )
    ]

unfoldable pub authorize_by_chat_id :
    (PairingQuery → Bool) → ℤ → String → PairingStore → Result (Unit {0}) × PairingStore
authorize_by_chat_id fails chat by s =
    if fails insert_user
    then (err (wrapped "authorize by chat id" sql_error), s)
    else (ok tt, authorize chat by s)
