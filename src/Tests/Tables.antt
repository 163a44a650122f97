-- ===== src/Tests/Tables.antt =====
-- Runs of internal/context/idempotency.go and internal/context/pairing.go: a stored call that is
-- checked again, and a pairing code that is used.
use gobot.Prelude.{ℕ, ◌<◌, ◌≡◌, ◌≢◌, refl, ◌⊎◌, Bool, true, false, none, some, [], ◌∷◌, String, In}
use gobot.Prelude.Int.{ℤ, pos, ltb_ℤ, ◌-ℤ◌}
use gobot.Prelude.Results.{Err, ok, err}
use gobot.Context.Idempotency.{Keys, put_key, Times, not_found, answer, mismatch, check, store}
use gobot.Context.Idempotency.Replays.{store-check}
use gobot.Context.Pairing.{
  PairingCode, PairingStore, same_chat, is_authorized, PairingQuery, authorize_by_code,
  select_first,
}
use gobot.Context.Pairing.Codes.{authorize_by_code-once}

-- The second format reads the one time that is written.
abbrev times : Times
times = record {
  parse_rfc3339 = λ text. none;
  parse_sqlite = λ text. some (pos 3);
  current_timestamp = λ now. "1970-01-01 00:00:03";
}

abbrev no_keys : Keys
no_keys key = none

store-check_example :
    let keys' = (store times false (pos 3) "k" "mail" "h" "sent" "s" no_keys).1 in
    let out = check times (pos 60) false false (pos 9) "k" "h" keys' in
    ((◌≢◌ {A = String} "h" "h")
      × (out ≡ (
        mismatch (record { found = true; cached_result = ""; hash_mismatch = true }) "k",
        keys',
      )))
    ⊎ ((◌≡◌ {A = String} "h" "h")
        × (ltb_ℤ (pos 60) (pos 9 -ℤ pos 3) ≡ false)
        × (out ≡ (
          answer (ok (record { found = true; cached_result = "sent"; hash_mismatch = false })),
          keys',
        )))
    ⊎ ((◌≡◌ {A = String} "h" "h")
        × (ltb_ℤ (pos 60) (pos 9 -ℤ pos 3) ≡ true)
        × (out ≡ (answer (ok not_found), put_key "k" none keys')))
unfolding store
store-check_example =
    store-check times false (pos 3) (pos 3) (pos 60) (pos 9) "k" "mail" "h" "h" "sent" "s" no_keys
      refl refl

abbrev pairing : PairingStore
pairing = record {
  authorized = λ chat. none;
  codes = record { code = "012345"; chat_id = pos 7; expires_at = 90 } ∷ [];
}

authorize_by_code-once_example :
    let s' = (authorize_by_code (λ q. false) 50 "012345" pairing).1 in
    ((c : PairingCode) × In c pairing.codes
      × (c.code ≡ "012345")
      × (50 < c.expires_at)
      × (c.chat_id ≡ pos 7))
    × (is_authorized false (pos 7) s' ≡ ok true)
    × ((other : ℤ)
        → same_chat other (pos 7) ≡ false
        → s'.authorized other ≡ pairing.authorized other)
    × ((fails' : PairingQuery → Bool) (later : ℕ)
        → (e : Err) × (authorize_by_code fails' later "012345" s' ≡ (err e, s')))
unfolding authorize_by_code select_first
authorize_by_code-once_example =
    authorize_by_code-once (λ q. false) 50 "012345" (pos 7) pairing refl refl
