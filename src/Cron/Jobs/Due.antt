-- ===== src/Cron/Jobs/Due.antt =====
-- identifyDueJobs: which jobs are due, and what happens to each job.
use gobot.Prelude.{
  ℕ, zero, suc, ◌+◌, ◌≡◌, refl, ap, sym, ◌∙◌, subst, ◌↔◌, inl, inr, Bool, true, not, ◌&&◌, some,
  List, [], ◌∷◌, arith, get_elem?, In, Bool-cases, if◌then◌else◌,
}
use gobot.Prelude.Int.{ℤ}
use gobot.Cron.Types.{Job}
use gobot.Cron.Schedule.{CronLib}
use gobot.Cron.Jobs.{
  DueJob, is_zero, triggers, scheduled, started, due_job, visit, identify_from, identify_due_jobs,
}

-- A job that the poll triggers.
abbrev pub is_due : ℤ → Job → Bool
is_due now j = j.enabled && not (is_zero j.state.next_run_at_ms) && triggers now j

-- A job that the poll gives its first run time.
abbrev pub is_new : Job → Bool
is_new j = j.enabled && is_zero j.state.next_run_at_ms

abbrev pub expected : CronLib → ℤ → Job → Job
expected lib now j =
    if is_due now j then started now j else if is_new j then scheduled lib now j else j

visit-expected :
    (lib : CronLib) (now : ℤ) (j : Job)
    → ((visit lib now j).0 ≡ expected lib now j) × ((visit lib now j).1 ≡ is_due now j)
unfolding visit
visit-expected lib now j = (ground arith, ground arith)

identify_from-get :
    (lib : CronLib) (now : ℤ) (i k : ℕ) (jobs : List Job) {j : Job}
    → get_elem? jobs k ≡ some j
    → get_elem? (identify_from lib now i jobs).0 k ≡ some (expected lib now j)
unfolding identify_from
identify_from-get lib now i k [] e = cc
identify_from-get lib now i zero (x ∷ jobs) {j} e =
    let same : x ≡ j = ground arith in rw (← same) (ap some ((visit-expected lib now x).0))
identify_from-get lib now i (suc k) (x ∷ jobs) e = identify_from-get lib now (suc i) k jobs e

identify_from-due :
    (lib : CronLib) (now : ℤ) (i k n : ℕ) (jobs : List Job) {j : Job}
    → n ≡ i + k
    → get_elem? jobs k ≡ some j
    → is_due now j ≡ true
    → In (due_job n j) (identify_from lib now i jobs).1
unfolding identify_from
identify_from-due lib now i k n [] at e d = cc
identify_from-due lib now i zero n (x ∷ jobs) {j} at e d =
    let same : j ≡ x = ground arith in
    let here : n ≡ i = omega arith in
    let due : (visit lib now x).1 ≡ true = rw (← same) ((visit-expected lib now j).1 ∙ d) in
    rw (due, here, same) (inl refl)
identify_from-due lib now i (suc k) n (x ∷ jobs) {j} at e d =
    let later = identify_from-due lib now (suc i) k n jobs (omega arith) e d in
    elim (Bool-cases (visit lib now x).1) [
      | inl due ↦ rw due (inr later)
      | inr not_due ↦ rw not_due later
    ]

identify_from_sound :
    (lib : CronLib) (now : ℤ) (i : ℕ) (jobs : List Job) (dj : DueJob)
    → In dj (identify_from lib now i jobs).1
    → (k : ℕ) × (j : Job) × (dj ≡ due_job (i + k) j)
      × (get_elem? jobs k ≡ some j)
      × (is_due now j ≡ true)
unfolding identify_from
identify_from_sound lib now i [] dj h = absurd h
identify_from_sound lib now i (x ∷ jobs) dj h = elim (Bool-cases (visit lib now x).1) [
  | inl due ↦
      let h' : In dj (due_job i x ∷ (identify_from lib now (suc i) jobs).1) = rw due at h in
      elim h' [
        | inl here ↦ (
          0,
          x,
          here ∙ ap (λ n. due_job n x) (omega arith),
          refl,
          sym ((visit-expected lib now x).1) ∙ due,
        )
        | inr later ↦ shift (identify_from_sound lib now (suc i) jobs dj later)
      ]
  | inr not_due ↦ shift (identify_from_sound lib now (suc i) jobs dj (rw not_due at h))
]
  where
    shift :
        (k : ℕ) × (j : Job) × (dj ≡ due_job (suc i + k) j)
          × (get_elem? jobs k ≡ some j)
          × (is_due now j ≡ true)
        → (k : ℕ) × (j : Job) × (dj ≡ due_job (i + k) j)
          × (get_elem? (x ∷ jobs) k ≡ some j)
          × (is_due now j ≡ true)
    shift (k, j, e, g, d) = (suc k, j, e ∙ ap (λ n. due_job n j) (omega arith), g, d)

-- A poll dispatches exactly the jobs that are enabled and have a positive next run that has come,
-- each under its index.
pub identify-due_iff :
    (lib : CronLib) (now : ℤ) (jobs : List Job) (i : ℕ) (j : Job)
    → get_elem? jobs i ≡ some j
    → In (due_job i j) (identify_due_jobs lib now jobs).1 ↔ (is_due now j ≡ true)
unfolding identify_due_jobs
identify-due_iff lib now jobs i j e = (
  λ h.
      let (k, x, same, g, d) = identify_from_sound lib now 0 jobs (due_job i j) h in
      let at : i ≡ k = omega (arith, ap (λ (q : DueJob). q.index) same) in
      let is_j : x ≡ j = ground (arith, subst (λ n. get_elem? jobs n ≡ some j) at e) in
      subst (λ y. is_due now y ≡ true) is_j d,
  λ d. identify_from-due lib now 0 i i jobs (omega arith) e d,
)

-- Every job after the poll: a due job has its run counted and stamped, an enabled job with no next
-- run gets one, and any other is as it was.
pub identify-get :
    (lib : CronLib) (now : ℤ) (jobs : List Job) (i : ℕ) (j : Job)
    → get_elem? jobs i ≡ some j
    → get_elem? (identify_due_jobs lib now jobs).0 i ≡ some (expected lib now j)
unfolding identify_due_jobs
identify-get lib now jobs i j e = identify_from-get lib now 0 i jobs e
