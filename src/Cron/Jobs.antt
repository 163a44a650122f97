-- ===== src/Cron/Jobs.antt =====
-- internal/cron/scheduler.go, identifyDueJobs, executeJob and the job part of poll.
pub mod Due
pub mod Poll
use gobot.Prelude.{
  ℕ, zero, suc, Bool, true, false, not, ◌&&◌, ◌||◌, Option, none, some, List, [], ◌∷◌, String,
  str_eq, if◌then◌else◌, length, ◌==◌,
}
use gobot.Prelude.Int.{ℤ, pos, ltb_ℤ, leb_ℤ, add64}
use gobot.Cron.Types.{Schedule, Payload, JobState, Job}
use gobot.Cron.Schedule.{CronLib, compute_next_run}

pub record DueJob : Type 0 where
  pub index : ℕ
  pub id : String
  pub name : String
  pub payload : Payload
  pub sched : Schedule

abbrev pub is_zero : ℤ → Bool
is_zero n = leb_ℤ n (pos 0) && leb_ℤ (pos 0) n

-- The test that triggers an enabled job.
abbrev pub triggers : ℤ → Job → Bool
triggers now_ms j = ltb_ℤ (pos 0) j.state.next_run_at_ms && leb_ℤ j.state.next_run_at_ms now_ms

abbrev pub scheduled : CronLib → ℤ → Job → Job
scheduled lib now_ms j = record j {
  state = record (j.state) { next_run_at_ms = compute_next_run lib j.schedule now_ms };
}

abbrev pub started : ℤ → Job → Job
started now_ms j = record j {
  state = record (j.state) { run_count = add64 j.state.run_count (pos 1); last_run_at_ms = now_ms };
}

-- The body of the loop for one job: the job after it, whether it is due, whether it changed.
pub visit : CronLib → ℤ → Job → Job × Bool × Bool
visit lib now_ms j =
    if not j.enabled
    then (j, false, false)
    else if is_zero j.state.next_run_at_ms
    then (scheduled lib now_ms j, false, true)
    else if triggers now_ms j
    then (started now_ms j, true, true)
    else (j, false, false)

abbrev pub due_job : ℕ → Job → DueJob
due_job i j = record {
  index = i;
  id = j.id;
  name = j.name;
  payload = j.payload;
  sched = j.schedule;
}

-- The loop from index `i`: the jobs after it, those that are due, and whether any changed.
pub identify_from : CronLib → ℤ → ℕ → List Job → List Job × List DueJob × Bool
unfolding visit
identify_from lib now_ms i [] = ([], [], false)
identify_from lib now_ms i (j ∷ jobs) =
    let (j', due, changed) = visit lib now_ms j in
    let (jobs', dues, any) = identify_from lib now_ms (suc i) jobs in
    (j' ∷ jobs', if due then due_job i j ∷ dues else dues, changed || any)

unfoldable pub identify_due_jobs : CronLib → ℤ → List Job → List Job × List DueJob × Bool
unfolding identify_from
identify_due_jobs lib now_ms jobs = identify_from lib now_ms 0 jobs

-- What the dispatcher makes of a payload: delivered, failed, or failed with the failure already
-- notified (AlreadyNotifiedError).
pub data Outcome : Type 0 where
  delivered dispatch_failed already_notified : Outcome

pub record DispatchResult : Type 0 where
  pub index : ℕ
  pub failed : Bool

abbrev pub is_failure : Outcome → Bool
is_failure delivered = false
is_failure _ = true

-- executeJob: the payload carries the job's ID; a failure is alerted unless it was notified.
unfoldable pub execute_job : (Payload → Outcome) → DueJob → DispatchResult × Bool
execute_job dispatch dj = elim (dispatch (record (dj.payload) { id = dj.id })) [
  | delivered ↦ (record { index = dj.index; failed = false }, false)
  | dispatch_failed ↦ (record { index = dj.index; failed = true }, true)
  | already_notified ↦ (record { index = dj.index; failed = true }, false)
]

unfoldable pub modify {ℓ} : {A : Type ℓ} → ℕ → (A → A) → List A → List A
modify i f [] = []
modify zero f (x ∷ xs) = f x ∷ xs
modify (suc i) f (x ∷ xs) = x ∷ modify i f xs

-- The body of the completion loop of poll for one result.
unfoldable pub completed : CronLib → ℤ → Bool → Job → Job
completed lib completion_ms failed j =
    let s = j.state in
    let counted =
      if failed
      then record s { failure_count = add64 s.failure_count (pos 1) }
      else record s { success_count = add64 s.success_count (pos 1) } in
    record j {
      state = record counted { next_run_at_ms = compute_next_run lib j.schedule completion_ms };
    }

unfoldable pub complete_all : CronLib → ℤ → List DispatchResult → List Job → List Job
unfolding modify completed
complete_all lib completion_ms [] jobs = jobs
complete_all lib completion_ms (r ∷ rs) jobs =
    complete_all lib completion_ms rs (modify r.index (completed lib completion_ms r.failed) jobs)

-- The branch of poll without a dispatcher.
unfoldable pub reschedule_all : CronLib → ℤ → List DueJob → List Job → List Job
unfolding modify
reschedule_all lib now_ms [] jobs = jobs
reschedule_all lib now_ms (dj ∷ due) jobs = reschedule_all lib now_ms due (
    modify dj.index
      (λ j. record j {
        state = record (j.state) { next_run_at_ms = compute_next_run lib dj.sched now_ms };
      })
      jobs)

-- The part of poll after the reloads. The jobs run concurrently: `results` gives their outcomes in
-- the order in which they arrive, and no dispatcher is `none`. The flag says whether the store is saved.
unfoldable pub poll_jobs :
    CronLib → ℤ → ℤ → Option (List DueJob → List DispatchResult) → List Job → List Job × Bool
unfolding identify_due_jobs reschedule_all complete_all
poll_jobs lib now_ms completion_ms results jobs =
    let (jobs', due, changed) = identify_due_jobs lib now_ms jobs in
    if length due == 0 then (jobs', changed) else elim results [
      | none ↦ (reschedule_all lib now_ms due jobs', true)
      | some run ↦ (complete_all lib completion_ms (run due) jobs', true)
    ]
