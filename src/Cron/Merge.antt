-- ===== src/Cron/Merge.antt =====
-- internal/cron/cron.go: MergeModularJobs and reconcileModularJobs.
pub mod Laws
pub mod Reconcile
use gobot.Prelude.{
  ℕ, suc, Bool, true, false, not, ◌&&◌, ◌||◌, Option, none, some, List, [], ◌∷◌, ◌++◌, String,
  str_eq, if◌then◌else◌,
}
use gobot.Cron.Types.{Job, JobState}

abbrev pub source_modular : String
source_modular = "modular"

-- A Go map of job states: the newest entry of a key hides the older ones.
unfoldable pub lookup_state : String → List (String × JobState) → Option JobState
lookup_state id [] = none
lookup_state id ((key, s) ∷ cache) = if str_eq key id then some s else lookup_state id cache

-- The fields that a modular job writes over a stored one; its state stays.
unfoldable pub overwrite : Job → Job → Job
overwrite mj existing = record existing {
  schedule = mj.schedule;
  payload = mj.payload;
  name = mj.name;
  enabled = mj.enabled;
  source = source_modular;
}

-- The inner loop: the first stored job with the ID is overwritten, and `none` means not found.
unfoldable pub overwrite_first : Job → List Job → Option (List Job)
unfolding overwrite
overwrite_first mj [] = none
overwrite_first mj (existing ∷ jobs) =
    let rest = overwrite_first mj jobs in
    if str_eq existing.id mj.id
    then some (overwrite mj existing ∷ jobs)
    else elim rest [ none ↦ none | some jobs' ↦ some (existing ∷ jobs') ]

-- `modularJobs[i]` with its source and its cached state.
unfoldable pub with_state : List (String × JobState) → Job → Job
unfolding lookup_state
with_state cache mj = elim (lookup_state mj.id cache) [
  | none ↦ record mj { source = source_modular }
  | some s ↦ record mj { source = source_modular; state = s }
]

unfoldable pub merge_one : List (String × JobState) → Job → List Job → List Job
unfolding overwrite_first with_state
merge_one cache mj store_jobs = elim (overwrite_first mj store_jobs) [
  | some jobs ↦ jobs
  | none ↦ store_jobs ++ with_state cache mj ∷ []
]

unfoldable pub merge_modular_jobs : List Job → List Job → List (String × JobState) → List Job
unfolding merge_one
merge_modular_jobs store_jobs [] cache = store_jobs
merge_modular_jobs store_jobs (mj ∷ modular) cache =
    merge_modular_jobs (merge_one cache mj store_jobs) modular cache

-- `present`: some modular job has the ID.
unfoldable pub is_present : String → List Job → Bool
is_present id [] = false
is_present id (mj ∷ modular) = str_eq mj.id id || is_present id modular

unfoldable pub build_cache : List Job → List (String × JobState) → List (String × JobState)
build_cache [] cache = cache
build_cache (j ∷ jobs) cache = build_cache jobs ((j.id, j.state) ∷ cache)

abbrev pub retains : Bool → List Job → Job → Bool
retains complete modular j =
    not complete || not (str_eq j.source source_modular) || is_present j.id modular

unfoldable pub retained : Bool → List Job → List Job → List Job
unfolding is_present
retained complete modular [] = []
retained complete modular (j ∷ jobs) =
    let rest = retained complete modular jobs in
    if retains complete modular j then j ∷ rest else rest

unfoldable pub reconcile_modular_jobs : List Job → List Job → Bool → List Job
unfolding merge_modular_jobs retained build_cache
reconcile_modular_jobs store_jobs modular complete =
    merge_modular_jobs (retained complete modular store_jobs) modular (build_cache store_jobs [])
