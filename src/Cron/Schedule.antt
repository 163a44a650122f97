-- ===== src/Cron/Schedule.antt =====
-- internal/cron/scheduler.go, ComputeNextRun.
pub mod Later
use gobot.Prelude.{Bool, true, false, Option, none, some, String, str_eq, if◌then◌else◌}
use gobot.Prelude.Int.{ℤ, pos, ltb_ℤ, add64}
use gobot.Cron.Types.{Schedule, Kind, at, every, cron}

unfoldable pub compute_next_run_at : Schedule → ℤ → ℤ
compute_next_run_at s now_ms = elim s.at_ms [
  | none ↦ pos 0
  | some at_ms ↦ if ltb_ℤ now_ms at_ms then at_ms else pos 0
]

unfoldable pub compute_next_run_every : Schedule → ℤ → ℤ
compute_next_run_every s now_ms = elim s.every_ms [
  | none ↦ pos 0
  | some every_ms ↦ if ltb_ℤ (pos 0) every_ms then add64 now_ms every_ms else pos 0
]

-- The clock library: which time zones load, and the next time of a cron expression in a zone after
-- a given one, or `none` for an expression that does not parse. An expression that parses and has no
-- next time gives Go's zero time, which lies before 1970.
pub record CronLib : Type 0 where
  pub zone_loads : String → Bool
  pub next : String → String → ℤ → Option ℤ

unfoldable pub compute_next_run_cron : CronLib → Schedule → ℤ → ℤ
compute_next_run_cron lib s now_ms =
    let zone = if str_eq s.tz "" then "UTC" else if lib.zone_loads s.tz then s.tz else "UTC" in
    if str_eq s.expr ""
    then pos 0
    else elim (lib.next s.expr zone now_ms) [ none ↦ pos 0 | some t ↦ t ]

compute_by_kind : CronLib → Kind → Schedule → ℤ → ℤ
unfolding compute_next_run_at compute_next_run_every compute_next_run_cron
compute_by_kind lib at s now_ms = compute_next_run_at s now_ms
compute_by_kind lib every s now_ms = compute_next_run_every s now_ms
compute_by_kind lib cron s now_ms = compute_next_run_cron lib s now_ms
compute_by_kind lib (Kind.other _) s now_ms = pos 0

unfoldable pub compute_next_run : CronLib → Schedule → ℤ → ℤ
unfolding compute_by_kind
compute_next_run lib s now_ms = compute_by_kind lib s.kind s now_ms
