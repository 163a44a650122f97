-- ===== src/State/Lock/Acquire/Ends.antt =====
-- Acquire: how the loop of AcquireLock ends.
use gobot.Prelude.{
  ℕ, zero, suc, ◌+◌, ◌≤◌, ◌<◌, ◌≡◌, ◌≢◌, refl, subst, ◌⊎◌, inl, inr, true, ltb, arith, Bool-cases,
  ◌==◌,
}
use gobot.State.Lock.Acquire.{
  Round, created, found_stale, found_busy, Outcome, acquired, timed_out, acquire_rounds,
  acquire_lock,
}

-- The rounds from `i` up to `k` are before the deadline and do not make the file.
abbrev pub Waits : (ℕ → ℕ) → (ℕ → Round) → ℕ → ℕ → ℕ → Type 0
Waits clock round deadline i k =
    (j : ℕ) → i ≤ j → j < k → (clock j < deadline) × (round j ≢ created)

-- The loop ends in round `k`, with the file or past the deadline.
abbrev pub Ends : (ℕ → ℕ) → (ℕ → Round) → ℕ → ℕ → ℕ → Outcome → Type 0
Ends clock round deadline i k out =
    ((out ≡ acquired k)
      × (clock k < deadline)
      × (round k ≡ created)
      × Waits clock round deadline i k)
    ⊎ ((out ≡ timed_out k) × (deadline ≤ clock k) × Waits clock round deadline i k)

Waits-more :
    (clock : ℕ → ℕ) (round : ℕ → Round) (deadline i k : ℕ)
    → clock i < deadline
    → round i ≢ created
    → Waits clock round deadline (suc i) k
    → Waits clock round deadline i k
Waits-more clock round deadline i k lt ne w j le below = elim (Bool-cases (j == i)) [
  | inl same ↦ let here : j ≡ i = ground arith in rw here (lt, ne)
  | inr other ↦ w j (ground arith) below
]

Ends-more :
    (clock : ℕ → ℕ) (round : ℕ → Round) (deadline i k : ℕ) (out : Outcome)
    → clock i < deadline
    → round i ≢ created
    → Ends clock round deadline (suc i) k out
    → Ends clock round deadline i k out
Ends-more clock round deadline i k out lt ne (inl (e, below, made, w)) =
    inl (e, below, made, Waits-more clock round deadline i k lt ne w)
Ends-more clock round deadline i k out lt ne (inr (e, late, w)) =
    inr (e, late, Waits-more clock round deadline i k lt ne w)

Round-cases : (r : Round) → (r ≡ created) ⊎ (r ≡ found_stale) ⊎ (r ≡ found_busy)
Round-cases created = inl refl
Round-cases found_stale = inr (inl refl)
Round-cases found_busy = inr (inr refl)

later :
    (clock : ℕ → ℕ) (deadline i n : ℕ)
    → i ≤ n
    → ltb (clock i) deadline ≡ true
    → deadline ≤ clock n
    → suc i ≤ n
later clock deadline i n le early late = elim (Bool-cases (n == i)) [
  | inl same ↦
      let here : n ≡ i = ground arith in
      absurd (let late' = subst (λ m. deadline ≤ clock m) here late in ground arith)
  | inr other ↦ ground arith
]

rounds-end :
    (clock : ℕ → ℕ) (round : ℕ → Round) (deadline fuel i : ℕ)
    → ((n : ℕ) × (i ≤ n) × (n < i + fuel) × (deadline ≤ clock n))
    → (k : ℕ) × (k < i + fuel)
      × Ends clock round deadline i k (acquire_rounds clock round deadline fuel i)
unfolding acquire_rounds
rounds-end clock round deadline zero i (n, le, lt, late) = absurd (omega arith)
rounds-end clock round deadline (suc fuel) i (n, le, lt, late) =
    elim (Bool-cases (ltb (clock i) deadline)) [
      | inr over ↦
          (i, omega arith, rw over (inr (refl, ground arith, λ j a b. absurd (omega arith))))
      | inl early ↦ elim (Round-cases (round i)) [
        | inl made ↦ (
          i,
          omega arith,
          rw (early, made) (inl (refl, ground arith, refl, λ j a b. absurd (omega arith))),
        )
        | inr (inl stale) ↦
            let (k, below, e) =
              rounds-end clock round deadline fuel (suc i)
                (n, later clock deadline i n le early late, omega arith, late) in
            (
              k,
              omega arith,
              rw (early, stale)
                  (Ends-more clock round deadline i k _ (ground arith) (λ h. absurd (ground arith))
                    e),
            )
        | inr (inr busy) ↦
            let (k, below, e) =
              rounds-end clock round deadline fuel (suc i)
                (n, later clock deadline i n le early late, omega arith, late) in
            (
              k,
              omega arith,
              rw (early, busy)
                  (Ends-more clock round deadline i k _ (ground arith) (λ h. absurd (ground arith))
                    e),
            )
      ]
    ]

-- Where the directory can be made and the clock reaches the deadline in round `n`, any fuel above `n`
-- is enough for AcquireLock: it ends in a round that is not above the fuel's, with the file, made
-- before the deadline, or with the error of the timeout at a round that is past the deadline, and no
-- earlier round has made the file or was past the deadline.
pub acquire_lock-Ends :
    (started timeout : ℕ) (clock : ℕ → ℕ) (round : ℕ → Round) (fuel n : ℕ)
    → n < fuel
    → started + timeout ≤ clock n
    → (k : ℕ) × (k < fuel)
      × Ends clock round
          (started + timeout)
          0
          k
          (acquire_lock true started clock round timeout fuel)
unfolding acquire_lock
acquire_lock-Ends started timeout clock round fuel n lt late =
    let (k, below, e) =
      rounds-end clock round (started + timeout) fuel 0 (n, omega arith, omega arith, late) in
    (k, omega arith, e)
