-- ===== src/State/Lock.antt =====
-- internal/state/lock.go: the lock file of one workflow. Each system call of AcquireLock, Release and
-- CleanupStaleLocks is one step, and the steps of all processes interleave. A time is a number of
-- nanoseconds.
pub mod Acquire
pub mod Exclusion
use gobot.Prelude.{
  ℕ, ◌+◌, ◌≤◌, ◌<◌, ◌==◌, ◌≡◌, ◌≢◌, Bool, true, false, Option, none, some, if◌then◌else◌,
}

-- The file of the lock; `creator` is the process that created it, which the file does not tell.
pub record LockFile : Type 0 where
  pub creator : ℕ
  pub mod_time : ℕ

-- A process outside the three functions; in the loop of AcquireLock, up to its deadline; in it or in
-- CleanupStaleLocks, after it saw a stale file and before it removes the path; with the lock.
pub data Phase : Type 0 where
  outside : Phase
  trying : ℕ → Phase
  removing : ℕ → Phase
  cleaning : Phase
  holding : Phase

pub record Locks : Type 0 where
  pub now : ℕ
  pub file : Option LockFile
  pub phase : ℕ → Phase

abbrev pub move : ℕ → Phase → Locks → Locks
move p to s = record s { phase = λ q. if q == p then to else s.phase q }

abbrev pub put_file : Option LockFile → Locks → Locks
put_file f s = record s { file = f }

-- Whether a step is one that finds the file older than the age at which it counts as stale.
pub data Kind : Type 0 where
  calm : Kind
  finds_stale : Kind

-- One system call. `timeout` is AcquireLock's, `max_age` that of CleanupStaleLocks.
pub data Step (timeout max_age : ℕ) : Kind → Locks → Locks → Type 0 where
  -- time.Now moves on.
  later : (s : Locks) (d : ℕ) → Step timeout max_age calm s (record s { now = s.now + d })
  -- AcquireLock reads the clock for its deadline.
  begin :
      (s : Locks) (p : ℕ)
      → s.phase p ≡ outside
      → Step timeout max_age calm s (move p (trying (s.now + timeout)) s)
  -- os.OpenFile with O_CREATE and O_EXCL makes the file.
  create :
      (s : Locks) (p deadline : ℕ)
      → s.phase p ≡ trying deadline
      → s.now < deadline
      → s.file ≡ none
      → Step timeout max_age calm s
          (move p holding (put_file (some (record { creator = p; mod_time = s.now })) s))
  -- os.Stat finds a file that is not stale, or none; the process sleeps and tries again.
  busy : (s : Locks) (p deadline : ℕ) → s.phase p ≡ trying deadline → Step timeout max_age calm s s
  -- os.Stat finds a stale file.
  stale :
      (s : Locks) (p deadline : ℕ) (f : LockFile)
      → s.phase p ≡ trying deadline
      → s.file ≡ some f
      → f.mod_time + timeout < s.now
      → Step timeout max_age finds_stale s (move p (removing deadline) s)
  -- os.Remove of the path, whatever file is there by then.
  remove :
      (s : Locks) (p deadline : ℕ)
      → s.phase p ≡ removing deadline
      → Step timeout max_age calm s (move p (trying deadline) (put_file none s))
  -- os.Remove fails.
  remove_failed :
      (s : Locks) (p deadline : ℕ)
      → s.phase p ≡ removing deadline
      → Step timeout max_age calm s (move p (trying deadline) s)
  -- The deadline has come.
  give_up :
      (s : Locks) (p deadline : ℕ)
      → s.phase p ≡ trying deadline
      → deadline ≤ s.now
      → Step timeout max_age calm s (move p outside s)
  -- Release removes the path.
  release :
      (s : Locks) (p : ℕ)
      → s.phase p ≡ holding
      → Step timeout max_age calm s (move p outside (put_file none s))
  -- Release, where os.Remove fails.
  release_failed :
      (s : Locks) (p : ℕ) → s.phase p ≡ holding → Step timeout max_age calm s (move p outside s)
  -- CleanupStaleLocks finds a stale file.
  sweep :
      (s : Locks) (p : ℕ) (f : LockFile)
      → s.phase p ≡ outside
      → s.file ≡ some f
      → f.mod_time + max_age < s.now
      → Step timeout max_age finds_stale s (move p cleaning s)
  -- CleanupStaleLocks removes the path.
  swept :
      (s : Locks) (p : ℕ)
      → s.phase p ≡ cleaning
      → Step timeout max_age calm s (move p outside (put_file none s))

-- No process, and perhaps a file that an earlier one has left.
abbrev pub Initial : Locks → Type 0
Initial s = (p : ℕ) → s.phase p ≡ outside

-- Runs from a state, with any steps.
pub data Run (timeout max_age : ℕ) (s : Locks) : Locks → Type 0 where
  here : Run timeout max_age s s
  step :
      {t u : Locks} {k : Kind}
      → Run timeout max_age s t
      → Step timeout max_age k t u
      → Run timeout max_age s u

-- Runs in which no file is ever found stale.
pub data Calm (timeout max_age : ℕ) : Locks → Type 0 where
  start : (s : Locks) → Initial s → Calm timeout max_age s
  step :
      {s s' : Locks}
      → Calm timeout max_age s
      → Step timeout max_age calm s s'
      → Calm timeout max_age s'
