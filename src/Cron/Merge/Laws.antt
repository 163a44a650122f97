-- ===== src/Cron/Merge/Laws.antt =====
-- What a reconciliation does to the job with a given ID.
use gobot.Prelude.{
  ◌≡◌, refl, ◌∙◌, ◌≢◌, ◌⊎◌, inl, inr, false, Option, none, some, List, [], ◌∷◌, ◌++◌, String,
  str_eq, eq_iff, arith, Bool-cases, Option-cases, if◌then◌else◌,
}
use gobot.Cron.Types.{Job, JobState}
use gobot.Cron.Merge.{
  overwrite, overwrite_first, with_state, merge_one, merge_modular_jobs, is_present,
}

-- The first job with an ID.
unfoldable pub find_job : String → List Job → Option Job
find_job id [] = none
find_job id (j ∷ jobs) = if str_eq j.id id then some j else find_job id jobs

find-overwrite_first :
    (mj : Job) (jobs : List Job) (id : String)
    → ((find_job mj.id jobs ≡ none) × (overwrite_first mj jobs ≡ none))
      ⊎ ((j : Job) × (out : List Job) × (find_job mj.id jobs ≡ some j)
          × (overwrite_first mj jobs ≡ some out)
          × (find_job mj.id out ≡ some (overwrite mj j))
          × (id ≢ mj.id → find_job id out ≡ find_job id jobs))
unfolding find_job overwrite_first
find-overwrite_first mj [] id = inl (refl, refl)
find-overwrite_first mj (x ∷ jobs) id = elim (Bool-cases (str_eq x.id mj.id)) [
  | inl here ↦ inr (
    x,
    overwrite mj x ∷ jobs,
    ground arith,
    ground arith,
    unfold overwrite in ground arith,
    λ ne. unfold overwrite in ground (arith, eq_iff x.id mj.id, eq_iff x.id id),
  )
  | inr away ↦ elim (find-overwrite_first mj jobs id) [
    | inl (f, o) ↦ inl (ground arith, ground arith)
    | inr (j, out, f, o, new, old) ↦
        inr (j, x ∷ out, ground arith, ground arith, ground arith, λ ne. ground (arith, old ne))
  ]
]

find-append :
    (id : String) (jobs : List Job) (j : Job)
    → find_job id jobs ≡ none
    → find_job id (jobs ++ j ∷ []) ≡ (if str_eq j.id id then some j else none)
unfolding find_job
find-append id [] j h = refl
find-append id (x ∷ jobs) j h = ground (arith, find-append id jobs j)

find-append_found :
    (id : String) (jobs : List Job) (j x : Job)
    → find_job id jobs ≡ some x
    → find_job id (jobs ++ j ∷ []) ≡ some x
unfolding find_job
find-append_found id [] j x h = cc
find-append_found id (y ∷ jobs) j x h = ground (arith, find-append_found id jobs j x)

with_state-id : (cache : List (String × JobState)) (mj : Job) → (with_state cache mj).id ≡ mj.id
unfolding with_state
with_state-id cache mj = ground arith

-- One modular job: the stored job with its ID is overwritten, or it is added; others stay.
unfoldable pub merged : List (String × JobState) → Job → Option Job → Job
merged cache mj none = with_state cache mj
merged cache mj (some j) = overwrite mj j

pub find-merge_one :
    (cache : List (String × JobState)) (mj : Job) (jobs : List Job)
    → find_job mj.id (merge_one cache mj jobs) ≡ some (merged cache mj (find_job mj.id jobs))
unfolding merge_one merged
find-merge_one cache mj jobs = elim (find-overwrite_first mj jobs mj.id) [
  | inl (f, o) ↦ ground (
    arith,
    find-append mj.id jobs (with_state cache mj) f,
    eq_iff (with_state cache mj).id mj.id,
    with_state-id cache mj,
  )
  | inr (j, out, f, o, new, old) ↦ ground arith
]

pub find-merge_one_ne :
    (cache : List (String × JobState)) (mj : Job) (jobs : List Job) (id : String)
    → id ≢ mj.id
    → find_job id (merge_one cache mj jobs) ≡ find_job id jobs
unfolding merge_one
find-merge_one_ne cache mj jobs id ne = elim (find-overwrite_first mj jobs id) [
  | inr (j, out, f, o, new, old) ↦ ground (arith, old ne)
  | inl (f, o) ↦ elim (Option-cases (find_job id jobs)) [
    | inl missing ↦ ground (
      arith,
      find-append id jobs (with_state cache mj) missing,
      eq_iff (with_state cache mj).id id,
      with_state-id cache mj,
    )
    | inr (x, found) ↦ ground (arith, find-append_found id jobs (with_state cache mj) x found)
  ]
]

pub find-merge_absent :
    (cache : List (String × JobState)) (modular jobs : List Job) (id : String)
    → is_present id modular ≡ false
    → find_job id (merge_modular_jobs jobs modular cache) ≡ find_job id jobs
unfolding merge_modular_jobs is_present
find-merge_absent cache [] jobs id h = refl
find-merge_absent cache (mj ∷ modular) jobs id h =
    find-merge_absent cache modular (merge_one cache mj jobs) id (ground arith)
    ∙ find-merge_one_ne cache mj jobs id (λ e. ground (arith, eq_iff mj.id id))
