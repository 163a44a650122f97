-- ===== src/Tests/Streams.antt =====
-- Runs of internal/dashboard/hub.go and internal/resilience/retry.go.
use gobot.Prelude.{
  ℕ, ◌≡◌, ◌*◌, ◌++◌, refl, true, Option, none, some, List, [], ◌∷◌, if◌then◌else◌, leb, last_of,
}
use gobot.Prelude.Int.{pos, pos_part}
use gobot.Dashboard.Hub.{
  Hub, Operation, emits, subscribes, unsubscribes, receives, closes, run, new_hub, subscribe,
}
use gobot.Dashboard.Hub.Channels.{IsValid}
use gobot.Dashboard.Hub.Safe.{run-safe}
use gobot.Dashboard.Hub.Backlog.{emitted, run-subscribe}
use gobot.Resilience.Retry.{RetryConfig, Ran, do_retry}
use gobot.Resilience.Retry.Attempts.{Describes, do_retry-Describes}

abbrev operations : List (Operation ℕ)
operations = subscribes ∷ emits 1 ∷ emits 2 ∷ receives 0 ∷ emits 3 ∷ unsubscribes 0 ∷ []

run-safe_example :
    (h : Hub ℕ) × (run (operations ++ closes ∷ []) (new_hub (pos 2)) ≡ some h) × IsValid h
run-safe_example = run-safe (pos 2) (operations ++ closes ∷ [])

-- The hub after the operations.
abbrev reached : Hub ℕ
reached = elim (run operations (new_hub (pos 2))) [ some h ↦ h | none ↦ new_hub (pos 2) ]

run-subscribe_example :
    ((subscribe reached).0 ≡ some (reached.next, last_of reached.buf_size (emitted operations)))
    × (reached.buf_size ≡ 2)
unfolding run new_hub
run-subscribe_example = run-subscribe (pos 2) operations reached refl refl

abbrev config : RetryConfig ℕ
config = record {
  max_attempts = pos 0;
  initial_delay = pos 500;
  max_delay = pos 600;
  multiplier = 2;
  jitter_factor = 0;
}

-- The second attempt succeeds.
abbrev second_succeeds : ℕ → Option ℕ
second_succeeds i = if leb 1 i then none else some 503

abbrev ran : Ran ℕ
ran =
    do_retry (λ i d f. d) (λ d f. pos (pos_part d * f)) (λ e. true) second_succeeds (λ i. none)
      (λ f. leb f 0) 2 1 config

do_retry-Describes_example : Describes (λ e. true) second_succeeds (λ i. none) 0 2 ran
do_retry-Describes_example =
    do_retry-Describes (λ i d f. d) (λ d f. pos (pos_part d * f)) (λ e. true) second_succeeds
      (λ i. none) (λ f. leb f 0) 2 1 config 2 refl
