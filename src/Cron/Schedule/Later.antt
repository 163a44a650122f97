-- ===== src/Cron/Schedule/Later.antt =====
-- ComputeNextRun: a computed run against the time it is computed at.
use gobot.Prelude.{
  ◌+◌, ◌<◌, ◌≡◌, ◌⊎◌, inl, inr, some, String, arith, Bool-cases, Option-cases, str_eq,
  if◌then◌else◌,
}
use gobot.Prelude.Int.{ℤ, pos, negsuc, pos_part, int64_half, add64, ◌≤ℤ◌, ◌<ℤ◌}
use gobot.Cron.Types.{Schedule, Kind, at, every, cron}
use gobot.Cron.Schedule.{
  CronLib, compute_next_run_at, compute_next_run_every, compute_next_run_cron, compute_by_kind,
  compute_next_run,
}

-- UnixMilli of Go's zero time, the start of the year 1.
abbrev pub zero_time_ms : ℤ
zero_time_ms = negsuc 62135596799999

-- Asked about `now`, the clock library gives later times, or the zero time where it finds none.
abbrev pub NextIsLater : CronLib → ℤ → Type 0
NextIsLater lib now =
    (expr zone : String) (t : ℤ) → lib.next expr zone now ≡ some t → (t ≡ zero_time_ms) ⊎ (now <ℤ t)

-- No run at all, or one after the given time. A run that is not positive is none.
abbrev pub IsNoneOrLater : ℤ → ℤ → Type 0
IsNoneOrLater now run = (run ≤ℤ pos 0) ⊎ (now <ℤ run)

-- An interval does not carry the clock past the largest int64.
abbrev pub InRange : Schedule → ℤ → Type 0
InRange s now = (e : ℤ) → s.every_ms ≡ some e → pos_part now + pos_part e < int64_half

every-later :
    (s : Schedule) (now : ℤ) → InRange s now → IsNoneOrLater now (compute_next_run_every s now)
unfolding compute_next_run_every add64
every-later s now h = elim (Option-cases s.every_ms) [
  | inl no_every ↦ inl (ground arith)
  | inr (e, q) ↦ let fits = h e q in ground arith
]

at-later : (s : Schedule) (now : ℤ) → IsNoneOrLater now (compute_next_run_at s now)
unfolding compute_next_run_at
at-later s now = elim (Option-cases s.at_ms) [
  | inl no_at ↦ inl (ground arith)
  | inr (t, q) ↦ ground arith
]

cron-later :
    (lib : CronLib) (s : Schedule) (now : ℤ)
    → NextIsLater lib now
    → IsNoneOrLater now (compute_next_run_cron lib s now)
unfolding compute_next_run_cron
cron-later lib s now later =
    let zone = if str_eq s.tz "" then "UTC" else if lib.zone_loads s.tz then s.tz else "UTC" in
    elim (Bool-cases (str_eq s.expr "")) [
      | inl empty ↦ rw empty (inl (omega arith))
      | inr full ↦ elim (Option-cases (lib.next s.expr zone now)) [
        | inl bad ↦ rw (full, bad) (inl (omega arith))
        | inr (t, q) ↦ elim (later s.expr zone t q) [
          | inl nothing ↦ rw (full, q) (inl (rw nothing (omega arith)))
          | inr ahead ↦ rw (full, q) (inr ahead)
        ]
      ]
    ]

by_kind-later :
    (lib : CronLib) (k : Kind) (s : Schedule) (now : ℤ)
    → NextIsLater lib now
    → InRange s now
    → IsNoneOrLater now (compute_by_kind lib k s now)
unfolding compute_by_kind
by_kind-later lib at s now later range = at-later s now
by_kind-later lib every s now later range = every-later s now range
by_kind-later lib cron s now later range = cron-later lib s now later
by_kind-later lib (Kind.other _) s now later range = inl (omega arith)

-- The next run is not positive, which means none, or strictly after the time it is computed at, where
-- the clock library gives only later times and the zero time, and the interval does not overflow.
pub compute_next_run-later :
    (lib : CronLib) (s : Schedule) (now : ℤ)
    → NextIsLater lib now
    → InRange s now
    → IsNoneOrLater now (compute_next_run lib s now)
unfolding compute_next_run
compute_next_run-later lib s now later range = by_kind-later lib s.kind s now later range
