-- ===== src/Cron/Jobs/Poll.antt =====
-- poll: a job after the poll that ran it.
use gobot.Prelude.{
  ℕ, zero, suc, ◌≡◌, refl, ap, sym, ◌∙◌, subst, ◌⊎◌, inl, inr, Bool, true, false, some, List, [],
  ◌∷◌, arith, get_elem?, length, In, Bool-cases, ◌==◌, if◌then◌else◌,
}
use gobot.Prelude.Int.{ℤ, ◌<ℤ◌}
use gobot.Cron.Types.{Job}
use gobot.Cron.Schedule.{CronLib, compute_next_run}
use gobot.Cron.Schedule.Later.{NextIsLater, InRange, compute_next_run-later}
use gobot.Cron.Jobs.{
  DueJob, DispatchResult, triggers, started, due_job, identify_due_jobs, modify, completed,
  complete_all, poll_jobs,
}
use gobot.Cron.Jobs.Due.{is_due, expected, identify-due_iff, identify-get}

get_elem?-modify :
    (i k : ℕ) (f : Job → Job) (jobs : List Job) {j : Job}
    → get_elem? jobs k ≡ some j
    → get_elem? (modify i f jobs) k ≡ some (if i == k then f j else j)
unfolding modify
get_elem?-modify i k f [] e = cc
get_elem?-modify zero zero f (x ∷ jobs) e = ground arith
get_elem?-modify zero (suc k) f (x ∷ jobs) e = ground arith
get_elem?-modify (suc i) zero f (x ∷ jobs) e = ground arith
get_elem?-modify (suc i) (suc k) f (x ∷ jobs) {j} e =
    get_elem?-modify i k f jobs e ∙ ap some (same (Bool-cases (i == k)))
  where
    same :
        ((i == k) ≡ true) ⊎ ((i == k) ≡ false)
        → (if i == k then f j else j) ≡ (if suc i == suc k then f j else j)
    same (inl e) = ground arith
    same (inr e) = ground arith

-- The next run of a job is the one computed at the given time.
abbrev Fresh : CronLib → ℤ → Job → Type 0
Fresh lib at j = j.state.next_run_at_ms ≡ compute_next_run lib j.schedule at

completed-Fresh :
    (lib : CronLib) (at : ℤ) (failed : Bool) (j : Job) → Fresh lib at (completed lib at failed j)
unfolding completed
completed-Fresh lib at true j = refl
completed-Fresh lib at false j = refl

completed-schedule :
    (lib : CronLib) (at : ℤ) (failed : Bool) (j : Job)
    → (completed lib at failed j).schedule ≡ j.schedule
unfolding completed
completed-schedule lib at true j = refl
completed-schedule lib at false j = refl

complete_all-Fresh :
    (lib : CronLib) (at : ℤ) (rs : List DispatchResult) (jobs : List Job) (i : ℕ) (j : Job)
    → get_elem? jobs i ≡ some j
    → ((r : DispatchResult) × In r rs × (r.index ≡ i)) ⊎ Fresh lib at j
    → (j' : Job) × (get_elem? (complete_all lib at rs jobs) i ≡ some j')
      × Fresh lib at j'
      × (j'.schedule ≡ j.schedule)
unfolding complete_all
complete_all-Fresh lib at [] jobs i j e (inl (r, h, q)) = absurd h
complete_all-Fresh lib at [] jobs i j e (inr fresh) = (j, e, fresh, refl)
complete_all-Fresh lib at (r ∷ rs) jobs i j e why = elim (Bool-cases (r.index == i)) [
  | inl here ↦
      let next = get_elem?-modify r.index i (completed lib at r.failed) jobs e in
      let (j', e', f', s') =
        complete_all-Fresh lib at rs (modify r.index (completed lib at r.failed) jobs) i
          (completed lib at r.failed j) (next ∙ ap some (rw here))
          (inr (completed-Fresh lib at r.failed j)) in
      (j', e', f', s' ∙ completed-schedule lib at r.failed j)
  | inr away ↦
      let next = get_elem?-modify r.index i (completed lib at r.failed) jobs e in
      complete_all-Fresh lib at rs (modify r.index (completed lib at r.failed) jobs) i j
        (next ∙ ap some (rw away)) (later why away)
]
  where
    later :
        ((q : DispatchResult) × In q (r ∷ rs) × (q.index ≡ i)) ⊎ Fresh lib at j
        → (r.index == i) ≡ false
        → ((q : DispatchResult) × In q rs × (q.index ≡ i)) ⊎ Fresh lib at j
    later (inr fresh) away = inr fresh
    later (inl (q, inr h, at)) away = inl (q, h, at)
    later (inl (q, inl h, at)) away = let here : r.index ≡ i = rw (← h) at in absurd (ground arith)

-- The dispatcher reports every job that it is given.
abbrev pub Reports : (List DueJob → List DispatchResult) → List DueJob → Type 0
Reports run due =
    (dj : DueJob) → In dj due → (r : DispatchResult) × In r (run due) × (r.index ≡ dj.index)

Fresh-quiet :
    (lib : CronLib) (at : ℤ) (j : Job)
    → NextIsLater lib at
    → InRange j.schedule at
    → Fresh lib at j
    → triggers at j ≡ false
Fresh-quiet lib at j later range fresh =
    elim (compute_next_run-later lib j.schedule at later range) [
      | inl unscheduled ↦ ground arith
      | inr ahead ↦ let ahead' : at <ℤ j.state.next_run_at_ms = rw fresh ahead in ground arith
    ]

due-some : (dj : DueJob) (due : List DueJob) → In dj due → (length due == 0) ≡ false
due-some dj [] h = absurd h
due-some dj (x ∷ due) h = ground arith

-- A job that a poll runs, however long it takes and whether it fails or not, has its next run
-- computed from the time of completion, so it is not due at that time. Asked about that time,
-- the clock library gives only later ones, or the zero time for an expression without a next time,
-- the interval does not overflow, and the results report every due job.
pub poll-no_refire :
    (lib : CronLib) (now completion : ℤ) (run : List DueJob → List DispatchResult) (jobs : List Job)
    (i : ℕ) (j : Job)
    → NextIsLater lib completion
    → InRange j.schedule completion
    → Reports run (identify_due_jobs lib now jobs).1
    → get_elem? jobs i ≡ some j
    → is_due now j ≡ true
    → (j' : Job) × (get_elem? (poll_jobs lib now completion (some run) jobs).0 i ≡ some j')
      × (j'.state.next_run_at_ms ≡ compute_next_run lib j.schedule completion)
      × (is_due completion j' ≡ false)
unfolding poll_jobs
poll-no_refire lib now completion run jobs i j later range reports e due =
    let dues = (identify_due_jobs lib now jobs).1 in
    let jobs' = (identify_due_jobs lib now jobs).0 in
    let listed : In (due_job i j) dues = (identify-due_iff lib now jobs i j e).1 due in
    let busy = due-some (due_job i j) dues listed in
    let ran : expected lib now j ≡ started now j = rw due in
    let (j', e', fresh, sched) =
      complete_all-Fresh lib completion (run dues) jobs' i (started now j)
        (identify-get lib now jobs i j e ∙ ap some ran) (inl (reports (due_job i j) listed)) in
    let quiet =
      Fresh-quiet lib completion j' later (subst (λ s. InRange s completion) (sym sched) range)
        fresh in
    (j', rw busy e', fresh ∙ ap (λ s. compute_next_run lib s completion) sched, ground arith)
