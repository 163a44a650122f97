-- ===== src/Audit/Ledger/Chain.antt =====
-- Ledger: the hash chain under Append and Verify.
use gobot.Prelude.{
  ◌≡◌, ◌≢◌, refl, sym, ◌∙◌, ◌↔◌, Bool, true, false, Option, none, some, List, [], ◌∷◌, ◌++◌, String,
  str_eq, eq_iff, arith,
}
use gobot.Prelude.Results.{ok}
use gobot.Audit.Ledger.{
  AuditEntry, AuditRecord, AuditLedger, record_text, last_hash, audit_hash, append, verify_records,
  verify,
}

abbrev pub Linked : Option String → AuditRecord → Type 0
Linked none r = Unit
Linked (some h) r = r.prev_hash ≡ h

-- Each record has the digest of its text, and names the hash of the one before it.
abbrev pub IsChain : (String → String) → Option String → List AuditRecord → Type 0
IsChain digest previous [] = Unit
IsChain digest previous (r ∷ rs) =
    (r.hash ≡ digest (record_text r)) × Linked previous r × IsChain digest (some r.hash) rs

linked_test : (previous : Option String) (r : AuditRecord) → Bool
linked_test none r = true
linked_test (some h) r = str_eq r.prev_hash h

module _ (digest : String → String) where
  verify_records-IsChain :
      (previous : Option String) (rs : List AuditRecord)
      → verify_records digest previous rs ≡ ok tt
      → IsChain digest previous rs
  unfolding verify_records audit_hash
  verify_records-IsChain previous [] h = tt
  verify_records-IsChain none (r ∷ rs) h = (
    ground (arith, eq_iff r.hash (digest (record_text r))),
    tt,
    verify_records-IsChain (some r.hash) rs (ground arith),
  )
  verify_records-IsChain (some p) (r ∷ rs) h = (
    ground (arith, eq_iff r.hash (digest (record_text r))),
    ground (arith, eq_iff r.prev_hash p),
    verify_records-IsChain (some r.hash) rs (ground arith),
  )

  IsChain-verify_records :
      (previous : Option String) (rs : List AuditRecord)
      → IsChain digest previous rs
      → verify_records digest previous rs ≡ ok tt
  unfolding verify_records audit_hash
  IsChain-verify_records previous [] h = refl
  IsChain-verify_records none (r ∷ rs) (own, link, t) =
      let rest = IsChain-verify_records (some r.hash) rs t in
      ground (arith, eq_iff r.hash (digest (record_text r)))
  IsChain-verify_records (some p) (r ∷ rs) (own, link, t) =
      let rest = IsChain-verify_records (some r.hash) rs t in
      ground (arith, eq_iff r.hash (digest (record_text r)), eq_iff r.prev_hash p)

  pub verify_iff :
      (l : AuditLedger) → (verify digest false l ≡ ok tt) ↔ IsChain digest none l.audit_log
  unfolding verify
  verify_iff l = (
    λ h. verify_records-IsChain none l.audit_log h,
    λ c. IsChain-verify_records none l.audit_log c,
  )

  IsChain-snoc :
      (previous : Option String) (rs : List AuditRecord) (r : AuditRecord)
      → IsChain digest previous rs
      → r.hash ≡ digest (record_text r)
      → r.prev_hash ≡ last_hash (elim previous [ none ↦ "" | some h ↦ h ]) rs
      → IsChain digest previous (rs ++ r ∷ [])
  unfolding last_hash
  IsChain-snoc none [] r c own link = (own, tt, tt)
  IsChain-snoc (some h) [] r c own link = (own, link, tt)
  IsChain-snoc previous (x ∷ xs) r (a, b, c) own link =
      (a, b, IsChain-snoc (some x.hash) xs r c own link)

  chain-last :
      (previous : Option String) (x : AuditRecord) (xs : List AuditRecord) (r : AuditRecord)
      → IsChain digest previous (x ∷ xs ++ r ∷ [])
      → r.prev_hash ≡ last_hash x.hash xs
  unfolding last_hash
  chain-last previous x [] r (_, _, (_, link, _)) = link
  chain-last previous x (y ∷ ys) r (_, _, c) = chain-last (some x.hash) y ys r c

  append-IsChain :
      (insert_fails : Bool) (ts : String) (entry : AuditEntry) (l : AuditLedger)
      → IsChain digest none l.audit_log
      → IsChain digest none (append digest false insert_fails ts entry l).1.audit_log
  unfolding append audit_hash
  append-IsChain true ts entry l c = c
  append-IsChain false ts entry l c = IsChain-snoc none l.audit_log _ c refl refl

  -- Calls of Append whose selects succeed, each with whether its insert fails, its time and its entry.
  unfoldable pub append_all : List (Bool × String × AuditEntry) → AuditLedger → AuditLedger
  append_all [] l = l
  append_all ((insert_fails, ts, entry) ∷ es) l =
      append_all es (append digest false insert_fails ts entry l).1

  -- A ledger that verifies goes on to verify after any calls of Append whose selects succeed, with
  -- or without the inserts.
  pub append_all-verify :
      (es : List (Bool × String × AuditEntry)) (l : AuditLedger)
      → verify digest false l ≡ ok tt
      → verify digest false (append_all es l) ≡ ok tt
  unfolding append_all
  append_all-verify [] l h = h
  append_all-verify ((insert_fails, ts, entry) ∷ es) l h =
      let l' = (append digest false insert_fails ts entry l).1 in
      append_all-verify es l'
        ((verify_iff l').1 (append-IsChain insert_fails ts entry l ((verify_iff l).0 h)))

  unread-breaks :
      (rs : List AuditRecord) (r : AuditRecord)
      → last_hash "" rs ≢ ""
      → r.prev_hash ≡ ""
      → IsChain digest none (rs ++ r ∷ [])
      → ⊥
  unfolding last_hash
  unread-breaks [] r ne blank c = ne refl
  unread-breaks (x ∷ xs) r ne blank c = ne (sym (chain-last none x xs r c) ∙ blank)

  -- Where the ledger's last hash is not empty, an Append whose select fails and whose insert succeeds
  -- reports success, and the ledger does not verify after it.
  pub append-unread :
      (ts : String) (entry : AuditEntry) (l : AuditLedger)
      → last_hash "" l.audit_log ≢ ""
      → let out = append digest true false ts entry l in
        (out.0 ≡ ok tt) × (verify digest false out.1 ≢ ok tt)
  unfolding append
  append-unread ts entry l ne =
      let l' = (append digest true false ts entry l).1 in
      (refl, λ h. unread-breaks l.audit_log _ ne refl ((verify_iff l').0 h))
