-- ===== src/Audit/Ledger.antt =====
-- internal/audit/ledger.go: the audit log with its hash chain. The table is a list of records in the
-- order of their keys; whether a query fails is an input, and the digest of crypto/sha256 and the
-- time are parameters.
pub mod Chain
pub mod Tampering
use Prim.Native.String.{◌++◌ as str_append}
use gobot.Prelude.{
  ℕ, zero, suc, Bool, true, false, not, Option, none, some, List, [], ◌∷◌, ◌++◌, String, str_eq,
  if◌then◌else◌,
}
use gobot.Prelude.Results.{Err, sql_error, wrapped, plain, Result, ok, err}

pub record AuditEntry : Type 0 where
  pub session_id : String
  pub actor : String
  pub action : String
  pub result : String

pub record AuditRecord : Type 0 where
  pub id : ℕ
  pub timestamp : String
  pub session_id : String
  pub actor : String
  pub action : String
  pub result : String
  pub prev_hash : String
  pub hash : String

-- The table `audit_log`, and the next key that AUTOINCREMENT gives.
pub record AuditLedger : Type 0 where
  pub audit_log : List AuditRecord
  pub next_id : ℕ

-- The text that is hashed.
abbrev pub hashed_text : String → String → String → String → String → String → String
hashed_text prev_hash timestamp session_id actor action result = str_append prev_hash (
    str_append "|" (
      str_append timestamp (
        str_append "|" (
          str_append session_id (
            str_append "|"
              (str_append actor (str_append "|" (str_append action (str_append "|" result)))))))))

abbrev pub record_text : AuditRecord → String
record_text r = hashed_text r.prev_hash r.timestamp r.session_id r.actor r.action r.result

-- The hash of the last record, or the text that is left empty if there is none.
unfoldable pub last_hash : String → List AuditRecord → String
last_hash before [] = before
last_hash before (r ∷ rs) = last_hash r.hash rs

module _ (digest : String → String) where
  unfoldable pub audit_hash : String → String → String → String → String → String → String
  audit_hash prev_hash timestamp session_id actor action result =
      digest (hashed_text prev_hash timestamp session_id actor action result)

  -- A failed select counts as an empty table.
  unfoldable pub append :
      Bool → Bool → String → AuditEntry → AuditLedger → Result (Unit {0}) × AuditLedger
  unfolding audit_hash last_hash
  append select_fails insert_fails ts entry l =
      let prev_hash = if select_fails then "" else last_hash "" l.audit_log in
      let hash = audit_hash prev_hash ts entry.session_id entry.actor entry.action entry.result in
      if insert_fails
      then (err (wrapped "audit: append" sql_error), l)
      else let row : AuditRecord = record {
        id = l.next_id;
        timestamp = ts;
        session_id = entry.session_id;
        actor = entry.actor;
        action = entry.action;
        result = entry.result;
        prev_hash = prev_hash;
        hash = hash;
      } in
        (ok tt, record { audit_log = l.audit_log ++ row ∷ []; next_id = suc l.next_id })

  -- The loop of Verify; `previous` is the hash of the record before, if there is one.
  unfoldable pub verify_records : Option String → List AuditRecord → Result (Unit {0})
  unfolding audit_hash
  verify_records previous [] = ok tt
  verify_records previous (r ∷ rs) =
      let expected = audit_hash r.prev_hash r.timestamp r.session_id r.actor r.action r.result in
      let linked : Bool = elim previous [ none ↦ true | some h ↦ str_eq r.prev_hash h ] in
      let rest = verify_records (some r.hash) rs in
      if not (str_eq r.hash expected)
      then err (plain "audit: hash mismatch")
      else if not linked
      then err (plain "audit: broken chain")
      else rest

  unfoldable pub verify : Bool → AuditLedger → Result (Unit {0})
  unfolding verify_records
  verify query_fails l =
      if query_fails
      then err (wrapped "audit verify: get all" (wrapped "audit: get all" sql_error))
      else verify_records none l.audit_log
