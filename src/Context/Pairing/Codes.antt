-- ===== src/Context/Pairing/Codes.antt =====
-- Pairing: what a code authorizes, and how often.
use gobot.Prelude.{
  ℕ, ◌<◌, ◌≡◌, refl, ap, sym, ◌∙◌, subst, inl, inr, Bool, true, false, not, ◌&&◌, none, some, List,
  [], ◌∷◌, String, eq_iff, filter, In, arith, Bool-cases, Option-cases,
}
use gobot.Prelude.Int.{ℤ}
use gobot.Prelude.Results.{Err, sql_error, wrapped, plain, ok, err}
use gobot.Context.Pairing.{
  PairingCode, PairingStore, same_chat, is_authorized, select_first, is_live, has_code, authorize,
  PairingQuery, authorize_by_code,
}

select_first-In :
    (p : PairingCode → Bool) (cs : List PairingCode) (c : PairingCode)
    → select_first p cs ≡ some c
    → In c cs × (p c ≡ true)
unfolding select_first
select_first-In p [] c h = absurd (ground arith)
select_first-In p (d ∷ ds) c h = elim (Bool-cases (p d)) [
  | inl keep ↦
      let same : d ≡ c = ground arith in (inl (sym same), subst (λ e. p e ≡ true) same keep)
  | inr skip ↦ let (i, k) = select_first-In p ds c (ground arith) in (inr i, k)
]

select_first-removed :
    (code : String) (now : ℕ) (cs : List PairingCode)
    → select_first (λ c. has_code code c && is_live now c) (filter (λ d. not (has_code code d)) cs)
      ≡ none
unfolding select_first
select_first-removed code now [] = refl
select_first-removed code now (c ∷ cs) =
    let rest = select_first-removed code now cs in
    elim (Bool-cases (has_code code c)) [ inl used ↦ ground arith | inr other ↦ ground arith ]

same_chat_self : (a : ℤ) → same_chat a a ≡ true
same_chat_self a = ground arith

-- The store after a code is used and deleted.
abbrev used : String → ℤ → PairingStore → PairingStore
used code chat s = record (authorize chat "" s) {
  codes = filter (λ d. not (has_code code d)) s.codes;
}

authorize_by_code-ok :
    (fails : PairingQuery → Bool) (now : ℕ) (code : String) (chat : ℤ) (s : PairingStore)
    → (authorize_by_code fails now code s).0 ≡ ok chat
    → fails PairingQuery.delete_code ≡ false
    → (c : PairingCode) × (select_first (λ c. has_code code c && is_live now c) s.codes ≡ some c)
      × (c.chat_id ≡ chat)
      × ((authorize_by_code fails now code s).1 ≡ used code chat s)
unfolding authorize_by_code
authorize_by_code-ok fails now code chat s h works =
    elim (Bool-cases (fails PairingQuery.select_chat)) [
      | inl bad ↦ absurd (ground arith)
      | inr read ↦
          elim (Option-cases (select_first (λ c. has_code code c && is_live now c) s.codes)) [
            | inl nothing ↦ absurd (ground arith)
            | inr (c, found) ↦ elim (Bool-cases (fails PairingQuery.insert_user)) [
              | inl bad ↦ absurd (ground arith)
              | inr wrote ↦
                  let same : c.chat_id ≡ chat = ground arith in
                  let e : (authorize_by_code fails now code s).1 ≡ used code c.chat_id s =
                    rw (authorize_by_code, read, found, wrote, works) refl in
                  (c, found, same, e ∙ ap (λ n. used code n s) same)
            ]
          ]
    ]

used-refused :
    (fails : PairingQuery → Bool) (later : ℕ) (code : String) (chat : ℤ) (s : PairingStore)
    → (e : Err) × (authorize_by_code fails later code (used code chat s)
        ≡ (err e, used code chat s))
unfolding authorize_by_code
used-refused fails later code chat s =
    let gone = select_first-removed code later s.codes in
    elim (Bool-cases (fails PairingQuery.select_chat)) [
      | inl bad ↦ (wrapped "query chat id by code" sql_error, rw (authorize_by_code, bad) refl)
      | inr read ↦
          (plain "pairing: code not found or expired", rw (authorize_by_code, read, gone) refl)
    ]

used-authorized :
    (code : String) (chat : ℤ) (s : PairingStore)
    → is_authorized false chat (used code chat s) ≡ ok true
unfolding is_authorized
used-authorized code chat s = let self = same_chat_self chat in rw (is_authorized, self) refl

-- An AuthorizeByCode that succeeds and whose DELETE works found a live row of the code, whose chat it
-- returns; that chat is authorized, every other chat is as it was, and from then on the same code is
-- refused at any time, whichever queries fail, and changes nothing.
pub authorize_by_code-once :
    (fails : PairingQuery → Bool) (now : ℕ) (code : String) (chat : ℤ) (s : PairingStore)
    → (authorize_by_code fails now code s).0 ≡ ok chat
    → fails PairingQuery.delete_code ≡ false
    → let s' = (authorize_by_code fails now code s).1 in
      ((c : PairingCode) × In c s.codes
        × (c.code ≡ code)
        × (now < c.expires_at)
        × (c.chat_id ≡ chat))
      × (is_authorized false chat s' ≡ ok true)
      × ((other : ℤ) → same_chat other chat ≡ false → s'.authorized other ≡ s.authorized other)
      × ((fails' : PairingQuery → Bool) (later : ℕ)
          → (e : Err) × (authorize_by_code fails' later code s' ≡ (err e, s')))
authorize_by_code-once fails now code chat s h works =
    let (c, found, same, e) = authorize_by_code-ok fails now code chat s h works in
    let (i, k) = select_first-In (λ c. has_code code c && is_live now c) s.codes c found in
    let s' = (authorize_by_code fails now code s).1 in
    (
      (c, i, ground (arith, eq_iff c.code code), ground arith, same),
      ap (is_authorized false chat) e ∙ used-authorized code chat s,
      λ other ne. ap (λ t. t.authorized other) e ∙ rw ne refl,
      λ fails' later.
          subst (λ t. (x : Err) × (authorize_by_code fails' later code t ≡ (err x, t))) (sym e)
            (used-refused fails' later code chat s),
    )
