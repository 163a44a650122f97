-- ===== src/Context/Idempotency/Replays.antt =====
-- Idempotency: what a check finds of a call that was stored.
use gobot.Prelude.{
  ◌≡◌, ◌≢◌, refl, ap, ◌∙◌, ◌⊎◌, inl, inr, Bool, true, false, Option, none, some, String, str_eq,
  eq_iff, arith, Bool-cases, Option-cases,
}
use gobot.Prelude.Int.{ℤ, ltb_ℤ, ◌-ℤ◌}
use gobot.Prelude.Results.{ok}
use gobot.Context.Idempotency.{
  IdempotencyRecord, Keys, put_key, Times, not_found, parse_created_at, check_age, answer, mismatch,
  check, store,
}

-- The row that a store writes.
abbrev stored_row : Times → ℤ → String → String → String → String → IdempotencyRecord
stored_row times now tool_name params_hash result session_key = record {
  tool_name = tool_name;
  params_hash = params_hash;
  result = result;
  session_key = session_key;
  created_at = times.current_timestamp now;
}

store-ok :
    (times : Times) (fails : Bool) (now : ℤ) (key tool hash result session : String) (keys : Keys)
    → (store times fails now key tool hash result session keys).0 ≡ ok tt
    → (keys key ≡ none)
      × ((store times fails now key tool hash result session keys).1
          ≡ put_key key (some (stored_row times now tool hash result session)) keys)
unfolding store
store-ok times fails now key tool hash result session keys h = elim (Option-cases (keys key)) [
  | inl free ↦ (free, ground arith)
  | inr (r, used) ↦ absurd (ground arith)
]

put_key-same :
    (key : String) (r : Option IdempotencyRecord) (keys : Keys) → put_key key r keys key ≡ r
put_key-same key r keys = ground (arith, eq_iff key key)

-- After a successful store whose time reads back, a check of its key, of which no query fails, has
-- one of three outcomes: other parameters are a mismatch that leaves the table; the same ones get the
-- stored result while the key is not older than the TTL; and after that nothing is found and the key
-- is gone.
pub store-check :
    (times : Times) (fails : Bool) (now created ttl later : ℤ)
    (key tool hash hash' result session : String) (keys : Keys)
    → (store times fails now key tool hash result session keys).0 ≡ ok tt
    → parse_created_at times (times.current_timestamp now) ≡ some created
    → let keys' = (store times fails now key tool hash result session keys).1 in
      let out = check times ttl false false later key hash' keys' in
      ((hash ≢ hash')
        × (out ≡ (
          mismatch (record { found = true; cached_result = ""; hash_mismatch = true }) key,
          keys',
        )))
      ⊎ ((hash ≡ hash')
          × (ltb_ℤ ttl (later -ℤ created) ≡ false)
          × (out ≡ (
            answer (ok (record { found = true; cached_result = result; hash_mismatch = false })),
            keys',
          )))
      ⊎ ((hash ≡ hash')
          × (ltb_ℤ ttl (later -ℤ created) ≡ true)
          × (out ≡ (answer (ok not_found), put_key key none keys')))
unfolding check check_age
store-check times fails now created ttl later key tool hash hash' result session keys h read =
    let (free, made) = store-ok times fails now key tool hash result session keys h in
    let keys' = (store times fails now key tool hash result session keys).1 in
    let row = stored_row times now tool hash result session in
    let here : keys' key ≡ some row = ap (λ k. k key) made ∙ put_key-same key (some row) keys in
    elim (Bool-cases (str_eq hash hash')) [
      | inr other ↦ inl ((λ e. ground (arith, eq_iff hash hash')), rw (check, here, other) refl)
      | inl same ↦
          let equal = (eq_iff hash hash').0 same in
          elim (Bool-cases (ltb_ℤ ttl (later -ℤ created))) [
            | inr young ↦
                inr (inl (equal, young, rw (check, here, same, check_age, read, young) refl))
            | inl old ↦ inr (inr (equal, old, rw (check, here, same, check_age, read, old) refl))
          ]
    ]
