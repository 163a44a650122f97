-- ===== src/Resilience/Retry/Attempts.antt =====
-- Do: how often it calls its function, what it returns and how long it sleeps.
use gobot.Prelude.{
  ℕ, zero, suc, ◌+◌, ◌-◌, ◌<◌, ◌≤◌, ◌≡◌, refl, sym, subst, ◌⊎◌, inl, inr, Bool, true, false, Option,
  none, some, List, [], ◌∷◌, if◌then◌else◌, arith, Bool-cases, Option-cases,
}
use gobot.Prelude.Int.{ℤ, ◌≤ℤ◌, ◌<ℤ◌, leb_ℤ, pos, pos_part}
use gobot.Resilience.Retry.{
  RetryConfig, Ran, normalize_config, cap, calculate_sleep, next_delay, attempts, do_retry,
}

-- A run from the attempt `i` that may call the function up to the attempt `last`.
abbrev pub Describes :
    {Error : Type 0}
    → (Error → Bool)
    → (ℕ → Option Error)
    → (ℕ → Option Error)
    → ℕ
    → ℕ
    → Ran Error
    → Type 0
Describes {Error} should_retry fn wait i last r =
    (i < r.calls)
    × (r.calls ≤ suc last)
    × ((k : ℕ)
        → i ≤ k
        → suc k < r.calls
        → (err : Error) × (fn k ≡ some err) × (should_retry err ≡ true) × (wait k ≡ none))
    × (((r.result ≡ fn (r.calls - 1))
          × ((err : Error)
              → r.result ≡ some err
              → (should_retry err ≡ false) ⊎ (r.calls ≡ suc last)))
        ⊎ ((err cancelled : Error) × (fn (r.calls - 1) ≡ some err)
            × (should_retry err ≡ true)
            × (wait (r.calls - 1) ≡ some cancelled)
            × (r.result ≡ some cancelled)))

ℕ-cases : (i k : ℕ) → i ≤ k → (k ≡ i) ⊎ (suc i ≤ k)
ℕ-cases i k le = omega arith

-- The attempts after the first one.
max-normalized :
    (m : ℤ) (max : ℕ)
    → suc max ≡ (if leb_ℤ m (pos 0) then 3 else pos_part m)
    → pos_part (if leb_ℤ m (pos 0) then pos 3 else m) - 1 ≡ max
max-normalized m max e = elim (Bool-cases (leb_ℤ m (pos 0))) [
  | inl low ↦ ground arith
  | inr high ↦ ground arith
]

-- How a run ends after the attempt `i`.
abbrev Ends :
    {Error : Type 0}
    → (Error → Bool)
    → (ℕ → Option Error)
    → (ℕ → Option Error)
    → ℕ
    → ℕ
    → Option Error
    → Type 0
Ends {Error} should_retry fn wait i last result =
    ((result ≡ fn i)
      × ((err : Error) → result ≡ some err → (should_retry err ≡ false) ⊎ (suc i ≡ suc last)))
    ⊎ ((err cancelled : Error) × (fn i ≡ some err)
        × (should_retry err ≡ true)
        × (wait i ≡ some cancelled)
        × (result ≡ some cancelled))

module _ {Error : Type 0} (should_retry : Error → Bool) (fn : ℕ → Option Error)
    (wait : ℕ → Option Error) where
  ends :
      (i last : ℕ) (r : Ran Error)
      → i ≤ last
      → r.calls ≡ suc i
      → Ends should_retry fn wait i last r.result
      → Describes should_retry fn wait i last r
  ends i last r le calls e =
      let before : r.calls - 1 ≡ i = omega arith in
      (omega arith, omega arith, λ k le' lt. absurd (omega arith), rw before (rw calls e))

  goes_on :
      (i last : ℕ) (r r' : Ran Error) (err : Error)
      → fn i ≡ some err
      → should_retry err ≡ true
      → wait i ≡ none
      → r'.calls ≡ r.calls
      → r'.result ≡ r.result
      → Describes should_retry fn wait (suc i) last r
      → Describes should_retry fn wait i last r'
  goes_on i last r r' err fails transient slept calls result (lt, le, earlier, end) = (
    omega arith,
    omega arith,
    λ k le' lt'. elim (ℕ-cases i k le') [
      | inl e ↦ (err, rw e fails, transient, rw e slept)
      | inr above ↦ earlier k above (omega arith)
    ],
    rw calls (rw result end),
  )

module _ {Float Error : Type 0} (jittered : ℕ → ℤ → Float → ℤ) (multiplied : ℤ → Float → ℤ)
    (should_retry : Error → Bool) (fn : ℕ → Option Error) (wait : ℕ → Option Error) where
  attempts-Describes :
      (cfg : RetryConfig Float) (left i : ℕ) (delay : ℤ)
      → Describes should_retry fn wait i
          (i + left)
          (attempts jittered multiplied should_retry fn wait cfg left i delay)
  unfolding attempts
  attempts-Describes cfg zero i delay =
      ends should_retry fn wait i (i + 0)
        (attempts jittered multiplied should_retry fn wait cfg 0 i delay) (omega arith) refl
        (inl (refl, λ err e. inr (omega arith)))
  attempts-Describes cfg (suc left) i delay = elim (Option-cases (fn i)) [
    | inl succeeds ↦
        ends should_retry fn wait i (i + suc left)
          (attempts jittered multiplied should_retry fn wait cfg (suc left) i delay) (omega arith)
          (ground arith) (inl (ground arith, λ err e. ground arith))
    | inr (err, fails) ↦ elim (Bool-cases (should_retry err)) [
      | inr permanent ↦
          ends should_retry fn wait i (i + suc left)
            (attempts jittered multiplied should_retry fn wait cfg (suc left) i delay) (omega arith)
            (ground arith) (inl (ground arith, λ err' e. inl (ground arith)))
      | inl transient ↦ elim (Option-cases (wait i)) [
        | inr (cancelled, stops) ↦
            ends should_retry fn wait i (i + suc left)
              (attempts jittered multiplied should_retry fn wait cfg (suc left) i delay)
              (omega arith) (ground arith)
              (inr (err, cancelled, fails, transient, stops, ground arith))
        | inl slept ↦
            let rest = attempts-Describes cfg left (suc i) (next_delay multiplied delay cfg) in
            let bound : suc i + left ≡ i + suc left = omega arith in
            goes_on should_retry fn wait i (i + suc left)
              (attempts jittered multiplied should_retry fn wait cfg left (suc i)
                (next_delay multiplied delay cfg))
              (attempts jittered multiplied should_retry fn wait cfg (suc left) i delay) err fails
              transient slept (ground arith) (ground arith)
              (subst
                (λ n. Describes should_retry fn wait (suc i) n (
                  attempts jittered multiplied should_retry fn wait cfg left (suc i)
                    (next_delay multiplied delay cfg)))
                bound rest)
      ]
    ]
  ]

-- Every sleep is at least 0, and at most MaxDelay where that is positive.
abbrev pub InBounds : ℤ → List ℤ → Type 0
InBounds max_delay [] = Unit {0}
InBounds max_delay (s ∷ ss) =
    (pos 0 ≤ℤ s) × (pos 0 <ℤ max_delay → s ≤ℤ max_delay) × InBounds max_delay ss

module _ {Float Error : Type 0} (jittered : ℕ → ℤ → Float → ℤ) (multiplied : ℤ → Float → ℤ)
    (should_retry : Error → Bool) (fn : ℕ → Option Error) (wait : ℕ → Option Error)
    (not_positive : Float → Bool) (two fifth : Float) where
  -- Do calls its function at least once and at most MaxAttempts times, where a MaxAttempts that is
  -- not positive counts as 3. Every call but the last failed with an error to retry and was
  -- followed by a whole sleep. The result is that of the last call, which is an error only if it
  -- is not to be retried or the attempts are used up; or the context ended the sleep after the
  -- last call, which failed, and the result is the context's error.
  pub do_retry-Describes :
      (cfg : RetryConfig Float) (max : ℕ)
      → suc max ≡ (if leb_ℤ cfg.max_attempts (pos 0) then 3 else pos_part cfg.max_attempts)
      → Describes should_retry fn wait 0 max
          (do_retry jittered multiplied should_retry fn wait not_positive two fifth cfg)
  unfolding do_retry normalize_config
  do_retry-Describes cfg max e =
      let cfg' = normalize_config not_positive two fifth cfg in
      let left : 0 + (pos_part cfg'.max_attempts - 1) ≡ max =
        omega (arith, max-normalized cfg.max_attempts max e) in
      subst
        (λ n.
          Describes should_retry fn wait 0 n
            (do_retry jittered multiplied should_retry fn wait not_positive two fifth cfg))
        left
        (attempts-Describes jittered multiplied should_retry fn wait cfg'
          (pos_part cfg'.max_attempts - 1) 0 cfg'.initial_delay)

  calculate_sleep-bounds :
      (i : ℕ) (delay : ℤ) (cfg : RetryConfig Float)
      → (pos 0 ≤ℤ calculate_sleep jittered i delay cfg)
        × (pos 0 <ℤ cfg.max_delay → calculate_sleep jittered i delay cfg ≤ℤ cfg.max_delay)
  unfolding calculate_sleep cap
  calculate_sleep-bounds i delay cfg = (ground arith, λ positive. ground arith)

  attempts-InBounds :
      (cfg : RetryConfig Float) (left i : ℕ) (delay : ℤ)
      → InBounds cfg.max_delay
          (attempts jittered multiplied should_retry fn wait cfg left i delay).sleeps
  unfolding attempts
  attempts-InBounds cfg zero i delay = tt
  attempts-InBounds cfg (suc left) i delay =
      let sleep = calculate_sleep jittered i delay cfg in
      let (low, high) = calculate_sleep-bounds i delay cfg in
      let rest = attempts-InBounds cfg left (suc i) (next_delay multiplied delay cfg) in
      let run = attempts jittered multiplied should_retry fn wait cfg (suc left) i delay in
      elim (Option-cases (fn i)) [
        | inl succeeds ↦
            let same : run.sleeps ≡ [] = ground arith in
            subst (InBounds cfg.max_delay) (sym same) tt
        | inr (err, fails) ↦ elim (Bool-cases (should_retry err)) [
          | inr permanent ↦
              let same : run.sleeps ≡ [] = ground arith in
              subst (InBounds cfg.max_delay) (sym same) tt
          | inl transient ↦ elim (Option-cases (wait i)) [
            | inr (cancelled, stops) ↦
                let same : run.sleeps ≡ sleep ∷ [] = ground arith in
                subst (InBounds cfg.max_delay) (sym same) (low, high, tt)
            | inl slept ↦
                let later =
                  (attempts jittered multiplied should_retry fn wait cfg left (suc i)
                    (next_delay multiplied delay cfg)).sleeps in
                let same : run.sleeps ≡ sleep ∷ later = ground arith in
                subst (InBounds cfg.max_delay) (sym same) (low, high, rest)
          ]
        ]
      ]

  -- Every sleep of Do lies between 0 and MaxDelay, if MaxDelay is positive, whatever the jitter and
  -- the multiplier compute; else it is at least 0.
  pub do_retry-InBounds :
      (cfg : RetryConfig Float)
      → InBounds cfg.max_delay
          (do_retry jittered multiplied should_retry fn wait not_positive two fifth cfg).sleeps
  unfolding do_retry normalize_config
  do_retry-InBounds cfg =
      let cfg' = normalize_config not_positive two fifth cfg in
      attempts-InBounds cfg' (pos_part cfg'.max_attempts - 1) 0 cfg'.initial_delay
