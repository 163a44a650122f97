-- ===== src/Resilience/Retry.antt =====
-- internal/resilience/retry.go: RetryConfig, Do and what it calls. A duration is an integer. The
-- floating-point numbers are a parameter: `jittered` and `multiplied` are the two computed
-- durations of calculateSleep and nextDelay before their bounds.
pub mod Attempts
use gobot.Prelude.{
  ℕ, zero, suc, ◌-◌, Bool, true, false, not, ◌&&◌, ◌||◌, Option, none, some, List, [], ◌∷◌,
  if◌then◌else◌,
}
use gobot.Prelude.Int.{ℤ, leb_ℤ, ltb_ℤ, pos, pos_part}

pub record RetryConfig (Float : Type 0) : Type 0 where
  pub max_attempts : ℤ
  pub initial_delay : ℤ
  pub max_delay : ℤ
  pub multiplier : Float
  pub jitter_factor : Float

-- The result, the number of calls of `fn` and the sleeps between them.
pub record Ran (Error : Type 0) : Type 0 where
  pub result : Option Error
  pub calls : ℕ
  pub sleeps : List ℤ

module _ {Float : Type 0} where
  -- A field that is not positive takes its default.
  unfoldable pub normalize_config :
      (Float → Bool) → Float → Float → RetryConfig Float → RetryConfig Float
  normalize_config not_positive two fifth cfg = record {
    max_attempts = if leb_ℤ cfg.max_attempts (pos 0) then pos 3 else cfg.max_attempts;
    initial_delay = cfg.initial_delay;
    max_delay = cfg.max_delay;
    multiplier = if not_positive cfg.multiplier then two else cfg.multiplier;
    jitter_factor = if not_positive cfg.jitter_factor then fifth else cfg.jitter_factor;
  }

  unfoldable pub cap : RetryConfig Float → ℤ → ℤ
  cap cfg d = if ltb_ℤ (pos 0) cfg.max_delay && ltb_ℤ cfg.max_delay d then cfg.max_delay else d

  -- `i` counts the calls of rand.Float64.
  unfoldable pub calculate_sleep : (ℕ → ℤ → Float → ℤ) → ℕ → ℤ → RetryConfig Float → ℤ
  unfolding cap
  calculate_sleep jittered i delay cfg =
      let sleep = jittered i delay cfg.jitter_factor in
      cap cfg (if ltb_ℤ sleep (pos 0) then pos 0 else sleep)

  unfoldable pub next_delay : (ℤ → Float → ℤ) → ℤ → RetryConfig Float → ℤ
  unfolding cap
  next_delay multiplied current cfg = cap cfg (multiplied current cfg.multiplier)

module _ {Float Error : Type 0} (jittered : ℕ → ℤ → Float → ℤ) (multiplied : ℤ → Float → ℤ)
    (should_retry : Error → Bool) (fn : ℕ → Option Error) (wait : ℕ → Option Error) where
  -- The loop from the attempt `i`, counted from 0, with `left` attempts after it. `fn i` is what
  -- that call returns, and `wait i` what the sleep after it returns.
  unfoldable pub attempts : RetryConfig Float → ℕ → ℕ → ℤ → Ran Error
  unfolding calculate_sleep next_delay
  attempts cfg zero i delay = record { result = fn i; calls = suc i; sleeps = [] }
  attempts cfg (suc left) i delay =
      let sleep = calculate_sleep jittered i delay cfg in
      let rest = attempts cfg left (suc i) (next_delay multiplied delay cfg) in
      elim (fn i) [
        | none ↦ record { result = none; calls = suc i; sleeps = [] }
        | some err ↦
            if not (should_retry err)
            then record { result = some err; calls = suc i; sleeps = [] }
            else elim (wait i) [
              | some cancelled ↦ record {
                result = some cancelled;
                calls = suc i;
                sleeps = sleep ∷ [];
              }
              | none ↦ record rest { sleeps = sleep ∷ rest.sleeps }
            ]
      ]

  -- MaxAttempts is positive once normalized, so that the loop has a first attempt.
  unfoldable pub do_retry : (Float → Bool) → Float → Float → RetryConfig Float → Ran Error
  unfolding attempts normalize_config
  do_retry not_positive two fifth cfg =
      let cfg' = normalize_config not_positive two fifth cfg in
      attempts cfg' (pos_part cfg'.max_attempts - 1) 0 cfg'.initial_delay
