-- ===== src/State/Lock/Acquire.antt =====
-- internal/state/lock.go: the loop of AcquireLock, over what its system calls return. `clock i` is
-- what time.Now reads at the head of round `i`, and `round i` what the calls of that round find; the
-- fuel counts the rounds.
pub mod Ends
use gobot.Prelude.{ℕ, zero, suc, ◌+◌, Bool, true, false, not, ltb, if◌then◌else◌}

-- The file is made; a stale file is there, which the code removes and goes on at once; or the file
-- is there or cannot be looked at, and the code sleeps.
pub data Round : Type 0 where
  created found_stale found_busy : Round

-- `unfinished` is the end of the fuel; the numbers are the rounds.
pub data Outcome : Type 0 where
  acquired : ℕ → Outcome
  timed_out : ℕ → Outcome
  no_directory : Outcome
  unfinished : Outcome

unfoldable pub acquire_rounds : (ℕ → ℕ) → (ℕ → Round) → ℕ → ℕ → ℕ → Outcome
acquire_rounds clock round deadline zero i = unfinished
acquire_rounds clock round deadline (suc fuel) i =
    let rest = acquire_rounds clock round deadline fuel (suc i) in
    if ltb (clock i) deadline
    then elim (round i) [ created ↦ acquired i | found_stale ↦ rest | found_busy ↦ rest ]
    else timed_out i

-- `made` says whether os.MkdirAll succeeds, and `started` is the time before the loop.
unfoldable pub acquire_lock : Bool → ℕ → (ℕ → ℕ) → (ℕ → Round) → ℕ → ℕ → Outcome
unfolding acquire_rounds
acquire_lock made started clock round timeout fuel =
    if not made then no_directory else acquire_rounds clock round (started + timeout) fuel 0
