-- ===== src/Dashboard/Hub/Backlog.antt =====
-- Hub: what a late subscriber gets.
use gobot.Prelude.{
  ℕ, suc, ◌-◌, ◌≤◌, ◌≡◌, refl, ap, sym, ◌∙◌, subst, inl, inr, true, false, some, List, [], ◌∷◌,
  ◌++◌, leb, length, length-drop, length-append, drop, drop-suc, drop-append, last_of,
  if◌then◌else◌, arith, Bool-cases, Option-cases, append_assoc, append-nil,
}
use gobot.Prelude.Int.{ℤ, leb_ℤ, pos, pos_part}
use gobot.Dashboard.Hub.{
  Hub, send, close_chan, for_each, new_hub, emit, push, subscribe, member, unsubscribe, close_hub,
  Operation, emits, subscribes, unsubscribes, receives, closes, step, run,
}

-- The entries that the operations emit, and whether they leave the hub open.
unfoldable pub emitted {ℓ} : {A : Type ℓ} → List (Operation A) → List A
emitted [] = []
emitted (emits entry ∷ os) = entry ∷ emitted os
emitted (subscribes ∷ os) = emitted os
emitted (unsubscribes c ∷ os) = emitted os
emitted (receives c ∷ os) = emitted os
emitted (closes ∷ os) = emitted os

push-last_of {ℓ} :
    {A : Type ℓ} (n : ℕ) (entry : A) (xs : List A)
    → 1 ≤ n
    → push n entry (last_of n xs) ≡ last_of n (xs ++ entry ∷ [])
unfolding push last_of
push-last_of n entry xs le =
    let kept = length-drop (length xs - n) xs in
    let longer = length-append xs (entry ∷ []) in
    elim (Bool-cases (leb n (length (drop (length xs - n) xs)))) [
      | inl full ↦
          let one_more : length (xs ++ entry ∷ []) - n ≡ suc (length xs - n) = ground arith in
          let fits : suc (length xs - n) ≤ length xs = ground arith in
          let lhs = ap (λ r. r ++ entry ∷ []) (drop-suc (length xs - n) xs) in
          let rhs = drop-append (suc (length xs - n)) xs (entry ∷ []) fits in
          ground (arith, one_more, lhs, rhs)
      | inr room ↦
          let all_old : length xs - n ≡ 0 = ground arith in
          let all_new : length (xs ++ entry ∷ []) - n ≡ 0 = ground arith in
          ground (arith, all_old, all_new)
    ]

abbrev Recent {ℓ} : {A : Type ℓ} → Hub A → List A → Type ℓ
Recent h xs = (1 ≤ h.buf_size) × (h.closed ≡ false → h.buffer ≡ last_of h.buf_size xs)

-- An operation that leaves the buffer alone.
keeps {ℓ} :
    {A : Type ℓ} (h h' : Hub A) (xs : List A)
    → Recent h xs
    → h'.buf_size ≡ h.buf_size
    → h'.closed ≡ h.closed
    → h'.buffer ≡ h.buffer
    → (h'.buf_size ≡ h.buf_size) × Recent h' (xs ++ [])
keeps h h' xs (le, r) size closed buffer = (
  size,
  (
    ground arith,
    λ opened.
        buffer
        ∙ r (sym closed ∙ opened)
        ∙ ap (λ n. last_of n xs) (sym size)
        ∙ ap (last_of h'.buf_size) (sym (append-nil xs)),
  ),
)

step-Recent {ℓ} :
    {A : Type ℓ} (o : Operation A) (h h' : Hub A) (xs : List A)
    → Recent h xs
    → step o h ≡ some h'
    → (h'.buf_size ≡ h.buf_size) × Recent h' (xs ++ emitted (o ∷ []))
unfolding step emit subscribe unsubscribe close_hub emitted
step-Recent (emits entry) h h' xs (le, r) e = elim (Bool-cases h.closed) [
  | inl shut ↦
      let same : h' ≡ h = ground arith in
      (
        ap (λ k. k.buf_size) same,
        (ground arith, λ opened. absurd (ground (arith, ap (λ k. k.closed) same))),
      )
  | inr live ↦ elim (Option-cases (for_each (send entry) h.subscribers h.heap)) [
    | inl panics ↦ ground arith
    | inr (heap', done) ↦
        let same : h' ≡ record h { heap = heap'; buffer = push h.buf_size entry h.buffer } =
          ground arith in
        let size : h'.buf_size ≡ h.buf_size = ap (λ k. k.buf_size) same in
        (
          size,
          (
            ground arith,
            λ opened.
                ap (λ k. k.buffer) same
                ∙ ap (push h.buf_size entry) (r live)
                ∙ push-last_of h.buf_size entry xs le
                ∙ ap (λ n. last_of n (xs ++ entry ∷ [])) (sym size),
          ),
        )
  ]
]
step-Recent subscribes h h' xs (le, r) e =
    keeps h h' xs (le, r) (ground arith) (ground arith) (ground arith)
step-Recent (unsubscribes c) h h' xs (le, r) e = elim (Bool-cases (member c h.subscribers)) [
  | inr absent ↦ keeps h h' xs (le, r) (ground arith) (ground arith) (ground arith)
  | inl there ↦ elim (Option-cases (close_chan (h.heap c))) [
    | inl panics ↦ ground arith
    | inr (ch, done) ↦ keeps h h' xs (le, r) (ground arith) (ground arith) (ground arith)
  ]
]
step-Recent (receives c) h h' xs (le, r) e =
    keeps h h' xs (le, r) (ground arith) (ground arith) (ground arith)
step-Recent closes h h' xs (le, r) e = elim (Bool-cases h.closed) [
  | inl shut ↦ keeps h h' xs (le, r) (ground arith) (ground arith) (ground arith)
  | inr live ↦ elim (Option-cases (for_each close_chan h.subscribers h.heap)) [
    | inl panics ↦ ground arith
    | inr (heap', done) ↦
        let shut : h'.closed ≡ true = ground arith in
        (ground arith, (ground arith, λ opened. ground arith))
  ]
]

emitted-cons {ℓ} :
    {A : Type ℓ} (o : Operation A) (os : List (Operation A))
    → emitted (o ∷ os) ≡ emitted (o ∷ []) ++ emitted os
unfolding emitted
emitted-cons (emits entry) os = refl
emitted-cons subscribes os = refl
emitted-cons (unsubscribes c) os = refl
emitted-cons (receives c) os = refl
emitted-cons closes os = refl

run-Recent {ℓ} :
    {A : Type ℓ} (os : List (Operation A)) (h last : Hub A) (xs : List A)
    → Recent h xs
    → run os h ≡ some last
    → (last.buf_size ≡ h.buf_size) × Recent last (xs ++ emitted os)
unfolding run emitted
run-Recent [] h last xs r e =
    let same : last ≡ h = ground arith in
    (ap (λ k. k.buf_size) same, rw same (rw (append-nil xs) r))
run-Recent (o ∷ os) h last xs r e = elim (Option-cases (step o h)) [
  | inl panics ↦ ground arith
  | inr (h', steps) ↦
      let (size, r') = step-Recent o h h' xs r steps in
      let (size', r'') = run-Recent os h' last (xs ++ emitted (o ∷ [])) r' (ground arith) in
      (
        size' ∙ size,
        subst (Recent last)
            (append_assoc xs (emitted (o ∷ [])) (emitted os)
              ∙ ap (λ t. xs ++ t) (sym (emitted-cons o os)))
            r'',
      )
]

-- After any operations on a new hub, a client that subscribes while the hub is open gets the last
-- entries that were emitted, in their order, as many as the buffer has room for.
pub run-subscribe {ℓ} :
    {A : Type ℓ} (buffer_size : ℤ) (os : List (Operation A)) (h : Hub A)
    → run os (new_hub buffer_size) ≡ some h
    → h.closed ≡ false
    → ((subscribe h).0 ≡ some (h.next, last_of h.buf_size (emitted os)))
      × (h.buf_size ≡ (if leb_ℤ buffer_size (pos 0) then 1000 else pos_part buffer_size))
unfolding subscribe new_hub
run-subscribe {A} buffer_size os h e live =
    let new : Hub A = new_hub buffer_size in
    let room : 1 ≤ new.buf_size = ground arith in
    let (size, recent) = run-Recent os new h [] (room, λ o. unfold last_of in ground arith) e in
    let buffer = recent.1 live in (ground (arith, buffer), size)
