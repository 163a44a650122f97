-- ===== src/Tests/Locking.antt =====
-- A run of internal/agent/lock_metrics.go.
use gobot.Prelude.{ℕ, ◌≡◌, ◌≤◌, refl, ◌↔◌, true, false, none, some, [], ◌∷◌, get_elem?}
use gobot.Agent.SessionLock.{
  System, spawn, acquire, arrive, receive, Reachable, begin, after, start, got, waiting, unlocking,
  acquired, idle, moves, with_metrics, with_token, note_contention, acquire_lock,
}
use gobot.Agent.SessionLock.Counts.{uses, held, noted, total}
use gobot.Agent.SessionLock.Exclusion.{Reachable-exclusive, Reachable-live, Reachable-counted}

-- A goroutine that has taken the lock.
abbrev spawned : System
spawned = record { locks = start.locks; goroutines = idle ∷ [] }

abbrev referring : System
referring = moves spawned 0 (acquired (acquire_lock spawned.locks).0) (acquire_lock spawned.locks).1

abbrev arrived : System
arrived = moves referring 0 (waiting 0) (with_metrics note_contention 0 referring.locks)

abbrev taken : System
taken = moves arrived 0 (got 0) (with_token false 0 arrived.locks)

arrived-Reachable : Reachable arrived
unfolding start acquire_lock
arrived-Reachable = after (after (after begin spawn) (acquire 0 refl)) (arrive 0 0 refl)

taken-Reachable : Reachable taken
unfolding start acquire_lock with_metrics
taken-Reachable = after arrived-Reachable (receive 0 0 refl refl)

Reachable-exclusive_example : ◌≡◌ {A = ℕ} 0 0
unfolding held
Reachable-exclusive_example =
    Reachable-exclusive taken 0 0 (got 0) (got 0) taken-Reachable refl refl refl refl

Reachable-live_example :
    (get_elem? arrived.goroutines 0 ≡ some (unlocking 0) → (arrived.locks.heap 0).has_token ≡ false)
    × (get_elem? arrived.goroutines 0 ≡ some (waiting 0)
        → total held arrived.goroutines ≡ 0
        → (arrived.locks.heap 0).has_token ≡ true)
Reachable-live_example = Reachable-live arrived 0 0 arrived-Reachable

Reachable-counted_example :
    (taken.locks.current ≡ none → total uses taken.goroutines ≡ 0)
    × ((l : ℕ)
        → taken.locks.current ≡ some l
        → (1 ≤ total uses taken.goroutines)
          × ((taken.locks.heap l).ref_count ≡ total uses taken.goroutines)
          × ((taken.locks.heap l).metrics.is_locked ≡ true ↔ total noted taken.goroutines ≡ 1))
Reachable-counted_example = Reachable-counted taken taken-Reachable
