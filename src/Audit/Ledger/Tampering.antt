-- ===== src/Audit/Ledger/Tampering.antt =====
-- Ledger: which changes of the table Verify notices.
use Prim.Native.String.{◌++◌ as str_append}
use text.Mathlib.TextLemmas.{append_assoc}
use gobot.Prelude.{
  ◌≡◌, ◌≢◌, refl, ap, sym, ◌∙◌, subst, false, Option, none, some, List, [], ◌∷◌, ◌++◌, String,
}
use gobot.Prelude.Results.{ok}
use gobot.Audit.Ledger.{AuditRecord, AuditLedger, record_text, verify}
use gobot.Audit.Ledger.Chain.{IsChain, verify_iff}

abbrev ledger : AuditLedger → List AuditRecord → AuditLedger
ledger l rs = record l { audit_log = rs }

module _ (digest : String → String) where
  -- A record within a chain, and the one after it.
  chain-pair :
      (previous : Option String) (before : List AuditRecord) (r next : AuditRecord)
      (after : List AuditRecord)
      → IsChain digest previous (before ++ r ∷ next ∷ after)
      → (r.hash ≡ digest (record_text r)) × (next.prev_hash ≡ r.hash)
  chain-pair previous [] r next after (own, _, (_, link, _)) = (own, link)
  chain-pair previous (x ∷ xs) r next after (_, _, c) = chain-pair (some x.hash) xs r next after c

  -- Where the digest has no collisions: in a ledger that verifies, a record that is not the last one
  -- cannot be replaced by one with another hashed text, whatever hash it is given, so that the
  -- ledger still verifies.
  pub verify-tampered :
      (l : AuditLedger) (before : List AuditRecord) (r r' next : AuditRecord)
      (after : List AuditRecord)
      → ((a b : String) → digest a ≡ digest b → a ≡ b)
      → verify digest false (ledger l (before ++ r ∷ next ∷ after)) ≡ ok tt
      → record_text r' ≢ record_text r
      → verify digest false (ledger l (before ++ r' ∷ next ∷ after)) ≢ ok tt
  verify-tampered l before r r' next after injective good ne h =
      let (own, link) =
        chain-pair none before r next after
          ((verify_iff digest (ledger l (before ++ r ∷ next ∷ after))).0 good) in
      let (own', link') =
        chain-pair none before r' next after
          ((verify_iff digest (ledger l (before ++ r' ∷ next ∷ after))).0 h) in
      ne (injective _ _ (sym own' ∙ sym link' ∙ link ∙ own))

  IsChain-swap :
      (previous : Option String) (before : List AuditRecord) (r r' : AuditRecord)
      (after : List AuditRecord)
      → record_text r' ≡ record_text r
      → r'.hash ≡ r.hash
      → r'.prev_hash ≡ r.prev_hash
      → IsChain digest previous (before ++ r ∷ after)
      → IsChain digest previous (before ++ r' ∷ after)
  IsChain-swap none [] r r' after text hash prev (own, link, c) = (
    hash ∙ own ∙ ap digest (sym text),
    tt,
    subst (λ h. IsChain digest (some h) after) (sym hash) c,
  )
  IsChain-swap (some p) [] r r' after text hash prev (own, link, c) = (
    hash ∙ own ∙ ap digest (sym text),
    prev ∙ link,
    subst (λ h. IsChain digest (some h) after) (sym hash) c,
  )
  IsChain-swap previous (x ∷ xs) r r' after text hash prev (a, b, c) =
      (a, b, IsChain-swap (some x.hash) xs r r' after text hash prev c)

  -- A ledger that verifies still verifies when, in one record, a part of the actor's text after a
  -- "|" is moved to the front of the action's.
  pub verify-shifted :
      (l : AuditLedger) (before after : List AuditRecord) (r : AuditRecord) (a b : String)
      → r.actor ≡ str_append a (str_append "|" b)
      → verify digest false (ledger l (before ++ r ∷ after)) ≡ ok tt
      → let r' = record r { actor = a; action = str_append b (str_append "|" r.action) } in
        verify digest false (ledger l (before ++ r' ∷ after)) ≡ ok tt
  verify-shifted l before after r a b split good =
      let r' : AuditRecord = record r {
        actor = a;
        action = str_append b (str_append "|" r.action);
      } in
      let rest = str_append r.action (str_append "|" r.result) in
      let head : String → String = λ t. str_append r.prev_hash (
        str_append "|"
          (str_append r.timestamp (str_append "|" (str_append r.session_id (str_append "|" t))))) in
      let tail : str_append a (
            str_append "|"
              (str_append (str_append b (str_append "|" r.action)) (str_append "|" r.result)))
          ≡ str_append (str_append a (str_append "|" b)) (str_append "|" rest) =
        simp append_assoc in
      let text : record_text r' ≡ record_text r =
        ap head (tail ∙ ap (λ t. str_append t (str_append "|" rest)) (sym split)) in
      (verify_iff digest (ledger l (before ++ r' ∷ after))).1 (
        IsChain-swap none before r r' after text refl refl
          ((verify_iff digest (ledger l (before ++ r ∷ after))).0 good))
