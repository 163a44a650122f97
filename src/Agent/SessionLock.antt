-- ===== src/Agent/SessionLock.antt =====
-- internal/agent/lock_metrics.go: the session lock of one key, as SessionManager.Dispatch of
-- agent.go and compactSessionAsync of session_history.go use it: acquireLock, then Lock, and on an
-- error release, else Unlock and release. Goroutines run interleaved; each critical section of
-- allLocksMu or metricsMu and each operation of the channel is one step. A time is a number of
-- nanoseconds.
pub mod Counts
pub mod Valid
pub mod Moves
pub mod References
pub mod Exclusion
use gobot.Prelude.{
  ℕ, zero, suc, ◌+◌, ◌-◌, Bool, true, false, Option, none, some, List, [], ◌∷◌, ◌++◌, String, ◌==◌,
  ltb, set, get_elem?, ◌≡◌, ◌≤◌, if◌then◌else◌,
}

pub record LockStatus : Type 0 where
  pub is_locked : Bool
  pub holder_stack : String
  pub acquired_at : ℕ
  pub wait_count : ℕ
  pub total_wait_time : ℕ
  pub total_hold_time : ℕ
  pub contention_count : ℕ
  pub max_wait_time : ℕ

-- `has_token` says whether the channel of capacity 1 holds its value.
pub record SessionLock : Type 0 where
  pub has_token : Bool
  pub metrics : LockStatus
  pub ref_count : ℕ

-- `all_locks[key]`, the locks on the heap and the first one not yet made.
pub record Locks : Type 0 where
  pub current : Option ℕ
  pub next : ℕ
  pub heap : ℕ → SessionLock

unfoldable pub put : ℕ → SessionLock → Locks → Locks
put l lock s = record s { heap = λ k. if k == l then lock else s.heap k }

unfoldable pub new_lock : SessionLock
new_lock = record {
  has_token = true;
  metrics = record {
    is_locked = false;
    holder_stack = "";
    acquired_at = 0;
    wait_count = 0;
    total_wait_time = 0;
    total_hold_time = 0;
    contention_count = 0;
    max_wait_time = 0;
  };
  ref_count = 0;
}

unfoldable pub count_ref : ℕ → Locks → Locks
unfolding put
count_ref l s = put l (record (s.heap l) { ref_count = suc (s.heap l).ref_count }) s

unfoldable pub acquire_lock : Locks → ℕ × Locks
unfolding count_ref new_lock put
acquire_lock s = elim (s.current) [
  | some l ↦ (l, count_ref l s)
  | none ↦
      let made = record (put s.next new_lock s) { current = some s.next; next = suc s.next } in
      (s.next, count_ref s.next made)
]

-- The count is an int: a count that `refCount--` leaves at 0 or below removes the key.
unfoldable pub release : ℕ → Locks → Locks
unfolding put
release l s =
    let s' = put l (record (s.heap l) { ref_count = (s.heap l).ref_count - 1 }) s in
    if ltb 1 (s.heap l).ref_count then s' else record s' { current = none }

-- Lock, first critical section.
unfoldable pub note_contention : LockStatus → LockStatus
note_contention m =
    if m.is_locked
    then record m { wait_count = suc m.wait_count; contention_count = suc m.contention_count }
    else m

-- Lock, after the receive: `stack` is what runtime.Stack gives.
unfoldable pub note_locked : ℕ → ℕ → String → LockStatus → LockStatus
note_locked now elapsed stack m = record m {
  is_locked = true;
  acquired_at = now;
  total_wait_time = m.total_wait_time + elapsed;
  max_wait_time = if ltb m.max_wait_time elapsed then elapsed else m.max_wait_time;
  holder_stack = if ltb 5000000000 elapsed then stack else "";
}

-- Unlock, before the send.
unfoldable pub note_unlocked : ℕ → LockStatus → LockStatus
note_unlocked now m =
    if m.is_locked
    then record m {
      total_hold_time = m.total_hold_time + (now - m.acquired_at);
      is_locked = false;
      holder_stack = "";
    }
    else m

unfoldable pub with_metrics : (LockStatus → LockStatus) → ℕ → Locks → Locks
unfolding put
with_metrics f l s = put l (record (s.heap l) { metrics = f (s.heap l).metrics }) s

unfoldable pub with_token : Bool → ℕ → Locks → Locks
unfolding put
with_token b l s = put l (record (s.heap l) { has_token = b }) s

-- Where a goroutine stands: `got` has received from the channel but has not noted it, `unlocking`
-- has noted the unlock but not sent, `leaving` has still to release its reference.
pub data Phase : Type 0 where
  idle : Phase
  acquired waiting got holding unlocking leaving : ℕ → Phase

pub record System : Type 0 where
  pub locks : Locks
  pub goroutines : List Phase

abbrev pub moves : System → ℕ → Phase → Locks → System
moves s g phase locks = record { locks = locks; goroutines = set s.goroutines g phase }

-- One step of the goroutine `g`.
pub data Step : System → System → Type 0 where
  spawn : {s : System} → Step s (record s { goroutines = idle ∷ s.goroutines })
  acquire :
      {s : System} (g : ℕ)
      → get_elem? s.goroutines g ≡ some idle
      → Step s (moves s g (acquired (acquire_lock s.locks).0) (acquire_lock s.locks).1)
  arrive :
      {s : System} (g l : ℕ)
      → get_elem? s.goroutines g ≡ some (acquired l)
      → Step s (moves s g (waiting l) (with_metrics note_contention l s.locks))
  receive :
      {s : System} (g l : ℕ)
      → get_elem? s.goroutines g ≡ some (waiting l)
      → (s.locks.heap l).has_token ≡ true
      → Step s (moves s g (got l) (with_token false l s.locks))
  -- The context is done or the timer fires.
  give_up :
      {s : System} (g l : ℕ)
      → get_elem? s.goroutines g ≡ some (waiting l)
      → Step s (moves s g (leaving l) s.locks)
  lock :
      {s : System} (g l now elapsed : ℕ) (stack : String)
      → get_elem? s.goroutines g ≡ some (got l)
      → Step s (moves s g (holding l) (with_metrics (note_locked now elapsed stack) l s.locks))
  unlock :
      {s : System} (g l now : ℕ)
      → get_elem? s.goroutines g ≡ some (holding l)
      → Step s (moves s g (unlocking l) (with_metrics (note_unlocked now) l s.locks))
  -- The send goes through only if the channel is empty.
  send :
      {s : System} (g l : ℕ)
      → get_elem? s.goroutines g ≡ some (unlocking l)
      → (s.locks.heap l).has_token ≡ false
      → Step s (moves s g (leaving l) (with_token true l s.locks))
  leave :
      {s : System} (g l : ℕ)
      → get_elem? s.goroutines g ≡ some (leaving l)
      → Step s (moves s g idle (release l s.locks))

unfoldable pub start : System
unfolding new_lock
start = record {
  locks = record { current = none; next = 0; heap = λ l. new_lock };
  goroutines = [];
}

pub data Reachable : System → Type 0 where
  begin : Reachable start
  after : {s s' : System} → Reachable s → Step s s' → Reachable s'
