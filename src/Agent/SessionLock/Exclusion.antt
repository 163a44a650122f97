-- ===== src/Agent/SessionLock/Exclusion.antt =====
-- What holds of a session lock in every state that its goroutines can reach.
use gobot.Prelude.{
  ℕ, ◌≤◌, ◌≡◌, ◌≢◌, refl, ap, sym, ◌∙◌, subst, inl, inr, ◌↔◌, Option, some, none, List, ◌∷◌,
  get_elem?, arith, Bool, true, false, Bool-cases, ◌==◌,
}
use gobot.Agent.SessionLock.{
  Locks, Phase, idle, acquired, waiting, got, holding, unlocking, leaving, System, Step, spawn,
  acquire, arrive, receive, give_up, lock, unlock, send, leave, start, Reachable, begin, after,
}
use gobot.Agent.SessionLock.Counts.{uses, held, noted, total, total-get, total-two}
use gobot.Agent.SessionLock.Valid.{bit, Valid, ValidAt, IsValid, user-current}
use gobot.Agent.SessionLock.Moves.{
  arrive-IsValid, receive-IsValid, lock-IsValid, unlock-IsValid, send-IsValid, give_up-IsValid,
}
use gobot.Agent.SessionLock.References.{acquire-IsValid, leave-IsValid}

spawn-ValidAt :
    (c : Option ℕ) (locks : Locks) (ps : List Phase)
    → ValidAt c locks ps
    → ValidAt c locks (idle ∷ ps)
unfolding total uses held noted
spawn-ValidAt none locks ps v = omega arith
spawn-ValidAt (some l) locks ps (all, count, some_use, one, status) =
    ((tt, all), omega arith, omega arith, omega arith, omega arith)

step-IsValid : {s s' : System} → Step s s' → IsValid s → IsValid s'
step-IsValid {s = s} spawn v = spawn-ValidAt s.locks.current s.locks s.goroutines v
step-IsValid {s = s} (acquire g at) v = acquire-IsValid s g v at
step-IsValid {s = s} (arrive g l at) v = arrive-IsValid s g l v at
step-IsValid {s = s} (receive g l at token) v = receive-IsValid s g l v at token
step-IsValid {s = s} (give_up g l at) v = give_up-IsValid s g l v at
step-IsValid {s = s} (lock g l now elapsed stack at) v = lock-IsValid s g l now elapsed stack v at
step-IsValid {s = s} (unlock g l now at) v = unlock-IsValid s g l now v at
step-IsValid {s = s} (send g l at token) v = send-IsValid s g l v at token
step-IsValid {s = s} (leave g l at) v = leave-IsValid s g l v at

Reachable-IsValid : {s : System} → Reachable s → IsValid s
unfolding start total
Reachable-IsValid begin = refl
Reachable-IsValid (after r step) = step-IsValid step (Reachable-IsValid r)

one_of : (p : Phase) → held p ≡ 1 → uses p ≡ 1
unfolding held uses
one_of idle h = absurd (omega arith)
one_of (acquired l) h = refl
one_of (waiting l) h = refl
one_of (got l) h = refl
one_of (holding l) h = refl
one_of (unlocking l) h = refl
one_of (leaving l) h = refl

-- Mutual exclusion: in every reachable state, two goroutines that have the token of a session, from
-- the receive of Lock to the send of Unlock, are the same one, whatever locks they have it of.
pub Reachable-exclusive :
    (s : System) (i j : ℕ) (p q : Phase)
    → Reachable s
    → get_elem? s.goroutines i ≡ some p
    → get_elem? s.goroutines j ≡ some q
    → held p ≡ 1
    → held q ≡ 1
    → i ≡ j
Reachable-exclusive s i j p q r hi hj hp hq =
    let (l, now, on, valid) = user-current s i p (Reachable-IsValid r) hi (one_of p hp) in
    let (all, count, some_use, one, status) = valid in
    elim (Bool-cases (i == j)) [
      | inl same ↦ ground arith
      | inr differ ↦
          let ne : i ≢ j = ground arith in
          absurd (omega (arith, total-two held s.goroutines i j p q hi hj ne))
    ]

bit-true : (b : Bool) → bit b ≡ 1 → b ≡ true
bit-true true h = refl
bit-true false h = absurd (omega arith)

bit-false : (b : Bool) → bit b ≡ 0 → b ≡ false
bit-false true h = absurd (omega arith)
bit-false false h = refl

-- The send of Unlock never blocks, and a goroutine that waits while nobody has the token can go on.
pub Reachable-live :
    (s : System) (g l : ℕ)
    → Reachable s
    → (get_elem? s.goroutines g ≡ some (unlocking l) → (s.locks.heap l).has_token ≡ false)
      × (get_elem? s.goroutines g ≡ some (waiting l)
          → total held s.goroutines ≡ 0
          → (s.locks.heap l).has_token ≡ true)
unfolding uses held
Reachable-live s g l r = (
  λ at.
      let (n, now, on, valid) = user-current s g (unlocking l) (Reachable-IsValid r) at refl in
      let (all, count, some_use, one, status) =
        subst (λ m. Valid m (s.locks.heap m) s.goroutines) (sym on) valid in
      bit-false ((s.locks.heap l).has_token)
        (omega (arith, total-get held s.goroutines g (unlocking l) at)),
  λ at nobody.
      let (n, now, on, valid) = user-current s g (waiting l) (Reachable-IsValid r) at refl in
      let (all, count, some_use, one, status) =
        subst (λ m. Valid m (s.locks.heap m) s.goroutines) (sym on) valid in
      bit-true ((s.locks.heap l).has_token) (omega arith),
)

-- The key is in the map exactly while some goroutine has a reference, and the lock's count is the
-- number of those goroutines.
pub Reachable-counted :
    (s : System)
    → Reachable s
    → (s.locks.current ≡ none → total uses s.goroutines ≡ 0)
      × ((l : ℕ)
          → s.locks.current ≡ some l
          → (1 ≤ total uses s.goroutines)
            × ((s.locks.heap l).ref_count ≡ total uses s.goroutines)
            × ((s.locks.heap l).metrics.is_locked ≡ true ↔ total noted s.goroutines ≡ 1))
Reachable-counted s r =
    let v = Reachable-IsValid r in
    (
      λ nothing. subst (λ c. ValidAt c s.locks s.goroutines) nothing v,
      λ l now.
          let (all, count, some_use, one, status) =
            subst (λ c. ValidAt c s.locks s.goroutines) now v in
          (
            some_use,
            count,
            (
              λ locked. sym status ∙ ap bit locked,
              λ noted_one. bit-true ((s.locks.heap l).metrics.is_locked) (status ∙ noted_one),
            ),
          ),
    )
