-- ===== src/Tests/Locks.antt =====
-- Runs of internal/state/lock.go: a lock that is taken, and one that is waited for.
use gobot.Prelude.{ℕ, zero, suc, ◌+◌, ◌<◌, ◌≡◌, refl, true, none, some, arith}
use gobot.State.Lock.{
  outside, trying, holding, Locks, move, put_file, Calm, Run, LockFile, Initial, begin, create,
}
use gobot.State.Lock.Exclusion.{Calm-exclusive, Run-overlap}
use gobot.State.Lock.Acquire.{Round, created, found_stale, found_busy, acquire_lock}
use gobot.State.Lock.Acquire.Ends.{Ends, acquire_lock-Ends}

abbrev unlocked : Locks
unlocked = record { now = 3; file = none; phase = λ p. outside }

abbrev begun : Locks
begun = move 1 (trying 13) unlocked

abbrev locked : Locks
locked = move 1 holding (put_file (some (record { creator = 1; mod_time = 3 })) begun)

begun-Calm : Calm 10 60 begun
begun-Calm = Calm.step (Calm.start unlocked (λ p. refl)) (begin unlocked 1 refl)

locked-Calm : Calm 10 60 locked
locked-Calm = Calm.step begun-Calm (create begun 1 13 refl (omega arith) refl)

Calm-exclusive_example :
    (◌≡◌ {A = ℕ} 1 1) × ((m : ℕ) × (locked.file ≡ some (record { creator = 1; mod_time = m })))
Calm-exclusive_example = Calm-exclusive 10 60 locked 1 1 locked-Calm refl refl

Run-overlap_example :
    (s s' : Locks) × (left : LockFile) × Initial s
    × (s.file ≡ some left)
    × (left.mod_time + 10 < s.now)
    × Run 10 60 s s'
    × (s'.now ≡ s.now)
    × (s'.phase 1 ≡ holding)
    × (s'.phase 2 ≡ holding)
    × (s'.file ≡ some (record { creator = 2; mod_time = s.now }))
Run-overlap_example = Run-overlap 10 60 (omega arith)

-- A busy round, a stale one, and one that makes the file.
abbrev rounds : ℕ → Round
rounds zero = found_busy
rounds (suc zero) = found_stale
rounds (suc (suc i)) = created

acquire_lock-Ends_example :
    (k : ℕ) × (k < 11)
    × Ends (λ i. i + 1) rounds (0 + 10) 0 k (acquire_lock true 0 (λ i. i + 1) rounds 10 11)
acquire_lock-Ends_example =
    acquire_lock-Ends 0 10 (λ i. i + 1) rounds 11 10 (omega arith) (omega arith)
