-- ===== src/Tests/Scheduling.antt =====
-- Runs of internal/cron: schedules, polls and the reconciliation of modular jobs.
use gobot.Prelude.{
  ℕ, ◌+◌, ◌*◌, ◌/◌, str_eq, subst, if◌then◌else◌, Bool-cases, ◌≡◌, refl, ap, sym, ◌<◌, inl, inr,
  true, false, none, some, List, [], ◌∷◌, String, arith, get_elem?,
}
use gobot.Prelude.Int.{ℤ, pos, pos_part, ◌<ℤ◌}
use gobot.Cron.Types.{cron, Schedule, Job}
use gobot.Cron.Schedule.{CronLib, compute_next_run, compute_next_run_cron}
use gobot.Cron.Schedule.Later.{zero_time_ms, NextIsLater, InRange}
use gobot.Cron.Jobs.{DueJob, DispatchResult, identify_due_jobs, poll_jobs}
use gobot.Cron.Jobs.Due.{is_due}
use gobot.Cron.Jobs.Poll.{Reports, poll-no_refire}
use gobot.Cron.Merge.{reconcile_modular_jobs, source_modular, is_present}
use gobot.Cron.Merge.Laws.{find_job}
use gobot.Cron.Merge.Reconcile.{reconcile-present}

-- One expression is the start of each minute, one never comes, and the others do not parse.
abbrev next_minute : ℤ → ℤ
next_minute now = pos (pos_part now / 60000 * 60000 + 60000)

abbrev lib : CronLib
lib = record {
  zone_loads = λ z. false;
  next = λ expr zone now.
      if str_eq expr "* * * * *"
      then some (next_minute now)
      else if str_eq expr "0 0 30 2 *"
      then some zero_time_ms
      else none;
}

lib-NextIsLater : (now : ℤ) → NextIsLater lib now
lib-NextIsLater now expr zone t e = elim (Bool-cases (str_eq expr "* * * * *")) [
  | inl minute ↦
      let same : next_minute now ≡ t = ground arith in
      inr (subst (λ u. now <ℤ u) same (omega arith))
  | inr other ↦ elim (Bool-cases (str_eq expr "0 0 30 2 *")) [
    | inl never ↦ inl (ground arith)
    | inr bad ↦ absurd (ground arith)
  ]
]

abbrev each_minute : Schedule
each_minute = record { kind = cron; at_ms = none; every_ms = none; expr = "* * * * *"; tz = "" }

abbrev in_february : Schedule
in_february = record { kind = cron; at_ms = none; every_ms = none; expr = "0 0 30 2 *"; tz = "" }

compute_next_run-minute : compute_next_run lib each_minute (pos 61000) ≡ pos 120000
unfolding compute_next_run compute_next_run_cron
compute_next_run-minute = refl

compute_next_run-never : compute_next_run lib in_february (pos 61000) ≡ zero_time_ms
unfolding compute_next_run compute_next_run_cron
compute_next_run-never = refl

abbrev job : String → String → ℤ → Job
job id source next = record {
  id = id;
  source = source;
  name = id;
  enabled = true;
  schedule = each_minute;
  payload = record {
    id = "";
    channel = "telegram";
    agent = "";
    to = "";
    subject = "";
    message = "hello";
  };
  state = record {
    last_run_at_ms = pos 0;
    next_run_at_ms = next;
    run_count = pos 0;
    success_count = pos 0;
    failure_count = pos 0;
  };
}

each_minute-InRange : (now : ℕ) → now < 1000000 → InRange each_minute (pos now)
each_minute-InRange now lt e h = ground arith

-- Every due job is delivered.
abbrev report_all : List DueJob → List DispatchResult
report_all [] = []
report_all (dj ∷ due) = record { index = dj.index; failed = false } ∷ report_all due

report_all-Reports : (due : List DueJob) → Reports report_all due
report_all-Reports [] dj h = absurd h
report_all-Reports (x ∷ due) dj (inl e) =
    (record { index = x.index; failed = false }, inl refl, ap (λ k. k.index) (sym e))
report_all-Reports (x ∷ due) dj (inr h) =
    let (r, there, same) = report_all-Reports due dj h in (r, inr there, same)

poll-no_refire_example :
    (j' : Job) × (get_elem?
        (poll_jobs lib (pos 5000) (pos 7000) (some report_all) (job "a" "" (pos 4000) ∷ [])).0
        0
      ≡ some j')
    × (j'.state.next_run_at_ms ≡ compute_next_run lib each_minute (pos 7000))
    × (is_due (pos 7000) j' ≡ false)
poll-no_refire_example =
    poll-no_refire lib (pos 5000) (pos 7000) report_all (job "a" "" (pos 4000) ∷ []) 0
      (job "a" "" (pos 4000)) (lib-NextIsLater (pos 7000)) (each_minute-InRange 7000 (omega arith))
      (report_all-Reports (identify_due_jobs lib (pos 5000) (job "a" "" (pos 4000) ∷ [])).1) refl
      refl

abbrev stored : List Job
stored = job "a" source_modular (pos 4000) ∷ job "b" "" (pos 0) ∷ []

reconcile-present_example :
    (j : Job) × (find_job "a" (reconcile_modular_jobs stored (job "a" "" (pos 1) ∷ []) true)
      ≡ some j)
    × (j.schedule ≡ each_minute)
    × (j.payload ≡ (job "a" "" (pos 1)).payload)
    × (j.name ≡ "a")
    × (j.enabled ≡ true)
    × (j.source ≡ source_modular)
    × ((old : Job) → find_job "a" stored ≡ some old → j.state ≡ old.state)
reconcile-present_example =
    reconcile-present stored (job "a" "" (pos 1) ∷ []) true (job "a" "" (pos 1)) (inl refl)
      (unfold is_present in (refl, tt))
