-- ===== src/Cron/Merge/Reconcile.antt =====
-- reconcileModularJobs: what it prunes, what it retains and what it takes from the snapshot.
use gobot.Prelude.{
  ◌≡◌, refl, ap, sym, ◌∙◌, ◌≢◌, inl, inr, Bool, true, false, Option, none, some, List, [], ◌∷◌,
  String, str_eq, eq_iff, arith, In, Bool-cases,
}
use gobot.Cron.Types.{Job, JobState}
use gobot.Cron.Merge.{
  source_modular, overwrite, with_state, merge_one, merge_modular_jobs, is_present, build_cache,
  retained, reconcile_modular_jobs,
}
use gobot.Cron.Merge.Laws.{find_job, merged, find-merge_one, find-merge_one_ne, find-merge_absent}

-- The snapshot has each ID once.
abbrev pub DistinctIds : List Job → Type 0
DistinctIds [] = Unit {0}
DistinctIds (mj ∷ modular) = (is_present mj.id modular ≡ false) × DistinctIds modular

In-present : (mj : Job) (modular : List Job) → In mj modular → is_present mj.id modular ≡ true
unfolding is_present
In-present mj [] h = absurd h
In-present mj (x ∷ modular) (inl e) =
    let same : str_eq x.id mj.id ≡ true = ground (arith, eq_iff x.id mj.id) in ground arith
In-present mj (x ∷ modular) (inr h) = ground (arith, In-present mj modular h)

find-merge_present :
    (cache : List (String × JobState)) (modular jobs : List Job) (mj : Job)
    → In mj modular
    → DistinctIds modular
    → find_job mj.id (merge_modular_jobs jobs modular cache)
      ≡ some (merged cache mj (find_job mj.id jobs))
unfolding merge_modular_jobs
find-merge_present cache [] jobs mj h d = absurd h
find-merge_present cache (x ∷ modular) jobs mj (inl e) d =
    let absent : is_present mj.id modular ≡ false = rw e (d.0) in
    find-merge_absent cache modular (merge_one cache x jobs) mj.id absent
    ∙ rw (← e) (find-merge_one cache mj jobs)
find-merge_present cache (x ∷ modular) jobs mj (inr h) d =
    let differs : mj.id ≢ x.id = λ e.
      let there = In-present mj modular h in cc (there, d.0, ap (λ k. is_present k modular) e) in
    find-merge_present cache modular (merge_one cache x jobs) mj h d.1
    ∙ ap (λ o. some (merged cache mj o)) (find-merge_one_ne cache x jobs mj.id differs)

find-retained_present :
    (complete : Bool) (modular jobs : List Job) (id : String)
    → is_present id modular ≡ true
    → find_job id (retained complete modular jobs) ≡ find_job id jobs
unfolding retained find_job
find-retained_present complete modular [] id p = refl
find-retained_present complete modular (j ∷ jobs) id p = elim (Bool-cases (str_eq j.id id)) [
  | inl here ↦
      let same : j.id ≡ id = ground (arith, eq_iff j.id id) in
      let there : is_present j.id modular ≡ true = rw same p in
      ground (arith, find-retained_present complete modular jobs id p)
  | inr away ↦ ground (arith, find-retained_present complete modular jobs id p)
]

find-retained_incomplete : (modular jobs : List Job) → retained false modular jobs ≡ jobs
unfolding retained
find-retained_incomplete modular [] = refl
find-retained_incomplete modular (j ∷ jobs) =
    ap (λ r. j ∷ r) (find-retained_incomplete modular jobs)

find-retained_pruned :
    (modular jobs : List Job) (id : String) (j : Job)
    → is_present id modular ≡ false
    → find_job id (retained true modular jobs) ≡ some j
    → str_eq j.source source_modular ≡ false
unfolding retained find_job
find-retained_pruned modular [] id j p h = cc
find-retained_pruned modular (x ∷ jobs) id j p h = elim (Bool-cases (str_eq x.id id)) [
  | inl here ↦
      let same : x.id ≡ id = ground (arith, eq_iff x.id id) in
      let gone : is_present x.id modular ≡ false = rw same p in
      ground (arith, find-retained_pruned modular jobs id j p)
  | inr away ↦ ground (arith, find-retained_pruned modular jobs id j p)
]

find-retained_foreign :
    (complete : Bool) (modular jobs : List Job) (id : String) (j : Job)
    → find_job id jobs ≡ some j
    → str_eq j.source source_modular ≡ false
    → find_job id (retained complete modular jobs) ≡ some j
unfolding retained find_job
find-retained_foreign complete modular [] id j h s = cc
find-retained_foreign complete modular (x ∷ jobs) id j h s =
    ground (arith, find-retained_foreign complete modular jobs id j)

merged-fields :
    (cache : List (String × JobState)) (mj : Job) (o : Option Job)
    → ((merged cache mj o).schedule ≡ mj.schedule)
      × ((merged cache mj o).payload ≡ mj.payload)
      × ((merged cache mj o).name ≡ mj.name)
      × ((merged cache mj o).enabled ≡ mj.enabled)
      × ((merged cache mj o).source ≡ source_modular)
unfolding merged overwrite with_state
merged-fields cache mj (some j) = (refl, refl, refl, refl, refl)
merged-fields cache mj none = (ground arith, ground arith, ground arith, ground arith, ground arith)

merged-state :
    (cache : List (String × JobState)) (mj : Job) (o : Option Job) (old : Job)
    → o ≡ some old
    → (merged cache mj o).state ≡ old.state
unfolding merged overwrite
merged-state cache mj none old h = cc
merged-state cache mj (some j) old h = cc

-- In a snapshot that has each ID once, a job of it takes its schedule, payload, name and enabled flag from the file, and
-- keeps the run history of the stored job with its ID.
pub reconcile-present :
    (store_jobs modular : List Job) (complete : Bool) (mj : Job)
    → In mj modular
    → DistinctIds modular
    → (j : Job) × (find_job mj.id (reconcile_modular_jobs store_jobs modular complete) ≡ some j)
      × (j.schedule ≡ mj.schedule)
      × (j.payload ≡ mj.payload)
      × (j.name ≡ mj.name)
      × (j.enabled ≡ mj.enabled)
      × (j.source ≡ source_modular)
      × ((old : Job) → find_job mj.id store_jobs ≡ some old → j.state ≡ old.state)
unfolding reconcile_modular_jobs
reconcile-present store_jobs modular complete mj h d =
    let cache = build_cache store_jobs [] in
    let (schedule, payload, name, enabled, source) =
      merged-fields cache mj (find_job mj.id store_jobs) in
    (
      merged cache mj (find_job mj.id store_jobs),
      find-merge_present cache modular (retained complete modular store_jobs) mj h d
          ∙ ap (λ o. some (merged cache mj o))
              (find-retained_present complete modular store_jobs mj.id (In-present mj modular h)),
      schedule,
      payload,
      name,
      enabled,
      source,
      λ old found. merged-state cache mj (find_job mj.id store_jobs) old found,
    )

-- A job that the snapshot does not have: nothing is pruned by an incomplete snapshot, only a job
-- that the modular files own is pruned by a complete one, and any other job stays as it is.
pub reconcile-absent :
    (store_jobs modular : List Job) (id : String)
    → is_present id modular ≡ false
    → (find_job id (reconcile_modular_jobs store_jobs modular false) ≡ find_job id store_jobs)
      × ((j : Job)
          → find_job id (reconcile_modular_jobs store_jobs modular true) ≡ some j
          → j.source ≢ source_modular)
      × ((j : Job)
          → find_job id store_jobs ≡ some j
          → j.source ≢ source_modular
          → find_job id (reconcile_modular_jobs store_jobs modular true) ≡ some j)
unfolding reconcile_modular_jobs
reconcile-absent store_jobs modular id p =
    let cache = build_cache store_jobs [] in
    let incomplete = find-merge_absent cache modular (retained false modular store_jobs) id p in
    let complete = find-merge_absent cache modular (retained true modular store_jobs) id p in
    (
      incomplete ∙ ap (find_job id) (find-retained_incomplete modular store_jobs),
      λ j h e.
          let kept = find-retained_pruned modular store_jobs id j p (sym complete ∙ h) in
          ground (arith, eq_iff j.source source_modular),
      λ j h ne.
          let foreign : str_eq j.source source_modular ≡ false =
            ground (arith, eq_iff j.source source_modular) in
          complete ∙ find-retained_foreign true modular store_jobs id j h foreign,
    )
