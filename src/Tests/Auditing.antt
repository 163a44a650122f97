-- ===== src/Tests/Auditing.antt =====
-- Runs of internal/audit: a ledger that is appended to and changed, and a record that is redacted.
use gobot.Prelude.{
  ◌≡◌, ◌≢◌, refl, ap, inl, inr, true, false, List, [], ◌∷◌, String, str_eq, eq_iff, if◌then◌else◌,
  arith, Bool-cases,
}
use gobot.Prelude.Results.{ok}
use gobot.Audit.Ledger.{
  AuditEntry, AuditRecord, AuditLedger, last_hash, audit_hash, append, verify, verify_records,
}
use gobot.Audit.Ledger.Chain.{append_all, append_all-verify, append-unread}
use gobot.Audit.Ledger.Tampering.{verify-tampered}
use gobot.Audit.Redact.{
  string_attr, group_attr, no_attrs, cons, Record, replace_all, redact_string, handle,
  trigger_prefixes,
}
use gobot.Audit.Redact.Laws.{
  Anchored, Settles, keys_of, Clean, CleanAttrs, redact_string-replace_all, handle-Clean,
}

-- Texts are their own digests here.
abbrev digest : String → String
digest s = s

abbrev entry : String → AuditEntry
entry action = record { session_id = "s"; actor = "agent"; action = action; result = "r" }

abbrev row : String → String → AuditRecord
row actor action = record {
  id = 1;
  timestamp = "t";
  session_id = "s";
  actor = actor;
  action = action;
  result = "r";
  prev_hash = "";
  hash = "|t|s|a|b|c|r";
}

abbrev next_row : AuditRecord
next_row = record {
  id = 2;
  timestamp = "t";
  session_id = "s";
  actor = "a";
  action = "d";
  result = "r";
  prev_hash = "|t|s|a|b|c|r";
  hash = "|t|s|a|b|c|r|t|s|a|d|r";
}

abbrev ledger : List AuditRecord → AuditLedger
ledger rs = record { audit_log = rs; next_id = 3 }

append_all-verify_example :
    verify digest false (
      append_all digest
        ((false, "t1", entry "read")
          ∷ (true, "t2", entry "write")
          ∷ (false, "t3", entry "send")
          ∷ [])
        (ledger (row "a|b" "c" ∷ [])))
    ≡ ok tt
unfolding verify verify_records audit_hash
append_all-verify_example =
    append_all-verify digest
      ((false, "t1", entry "read") ∷ (true, "t2", entry "write") ∷ (false, "t3", entry "send") ∷ [])
      (ledger (row "a|b" "c" ∷ [])) refl

append-unread_example :
    let out = append digest true false "t1" (entry "read") (ledger (row "a|b" "c" ∷ [])) in
    (out.0 ≡ ok tt) × (verify digest false out.1 ≢ ok tt)
unfolding last_hash
append-unread_example =
    append-unread digest "t1" (entry "read") (ledger (row "a|b" "c" ∷ []))
      (λ e. ground (arith, eq_iff "|t|s|a|b|c|r" ""))

verify-tampered_example : verify digest false (ledger (row "a|b" "d" ∷ next_row ∷ [])) ≢ ok tt
unfolding verify verify_records audit_hash
verify-tampered_example =
    verify-tampered digest (ledger []) [] (row "a|b" "c") (row "a|b" "d") next_row [] (λ a b e. e)
      refl (λ e. ground (arith, eq_iff "|t|s|a|b|d|r" "|t|s|a|b|c|r"))

-- Each pattern here is its prefix alone, as a whole text.
abbrev replacer : String → String → String
replacer p s = if str_eq s p then "[REDACTED]" else s

abbrev replacers : List (String → String)
replacers = replacer "AIzaSy" ∷ replacer "ya29." ∷ replacer "xoxb-" ∷ []

replacer-other : (p s : String) → str_eq s p ≡ false → replacer p s ≡ s
replacer-other p s h = rw h refl

replacers-Anchored : Anchored str_eq replacers trigger_prefixes
replacers-Anchored =
    (replacer-other "AIzaSy", (replacer-other "ya29.", (replacer-other "xoxb-", tt)))

replacers-other :
    (s : String)
    → str_eq s "AIzaSy" ≡ false
    → str_eq s "ya29." ≡ false
    → str_eq s "xoxb-" ≡ false
    → replace_all replacers s ≡ s
unfolding replace_all
replacers-other s a b c = ground arith

replacers-Settles : Settles (replace_all replacers)
unfolding replace_all
replacers-Settles s = elim (Bool-cases (str_eq s "AIzaSy")) [
  | inl a ↦ rw (replace_all, a) refl
  | inr a ↦ elim (Bool-cases (str_eq s "ya29.")) [
    | inl b ↦ rw (replace_all, a, b) refl
    | inr b ↦ elim (Bool-cases (str_eq s "xoxb-")) [
      | inl c ↦ rw (replace_all, a, b, c) refl
      | inr c ↦ ap (replace_all replacers) (replacers-other s a b c)
    ]
  ]
]

redact_string-replace_all_example :
    redact_string str_eq replacers "ya29." ≡ replace_all replacers "ya29."
redact_string-replace_all_example =
    redact_string-replace_all str_eq replacers "ya29." replacers-Anchored

abbrev logged : Record
logged = record {
  message = "xoxb-";
  attrs = cons (group_attr "g" (cons (string_attr "k" "ya29.") no_attrs)) no_attrs;
}

handle-Clean_example :
    let out = handle str_eq replacers true logged in
    Clean str_eq replacers out.message
    × CleanAttrs str_eq replacers out.attrs
    × (keys_of out.attrs ≡ keys_of logged.attrs)
handle-Clean_example = handle-Clean str_eq replacers replacers-Anchored replacers-Settles logged
