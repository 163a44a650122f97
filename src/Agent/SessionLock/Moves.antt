-- ===== src/Agent/SessionLock/Moves.antt =====
-- The invariant of a session lock under the steps of Lock and Unlock.
use gobot.Prelude.{
  ℕ, ◌+◌, ◌≤◌, ◌≡◌, refl, ap, sym, ◌∙◌, subst, inl, inr, some, set, get_elem?, arith, Bool, true,
  false, Bool-cases, String, ◌==◌,
}
use gobot.Agent.SessionLock.{
  LockStatus, SessionLock, Locks, put, note_contention, note_locked, note_unlocked, with_metrics,
  with_token, Phase, acquired, waiting, got, holding, unlocking, leaving, System, moves,
}
use gobot.Agent.SessionLock.Counts.{uses, held, noted, total-get, total-noted}
use gobot.Agent.SessionLock.Valid.{bit, On, Valid, ValidAt, IsValid, user-current, move-Valid}

pub put-same : (l : ℕ) (k : SessionLock) (s : Locks) → (put l k s).heap l ≡ k
unfolding put
put-same l k s = let e : (l == l) ≡ true = ground arith in ground arith

follow :
    (s : System) (g k : ℕ) (p p' : Phase) (lock' : SessionLock)
    → IsValid s
    → get_elem? s.goroutines g ≡ some p
    → uses p ≡ 1
    → uses p' ≡ 1
    → ((l : ℕ) → On l p → (k ≡ l) × On l p')
    → (Valid k (s.locks.heap k) s.goroutines
        → (lock'.ref_count ≡ (s.locks.heap k).ref_count)
          × (bit lock'.has_token + held p' ≡ bit (s.locks.heap k).has_token + held p)
          × (bit lock'.metrics.is_locked + noted p
              ≡ bit (s.locks.heap k).metrics.is_locked + noted p'))
    → IsValid (moves s g p' (put k lock' s.locks))
unfolding put
follow s g k p p' lock' v at u u' on facts =
    let (l, now, p_on, valid) = user-current s g p v at u in
    let (same, p'_on) = on l p_on in
    let valid_k : Valid k (s.locks.heap k) s.goroutines =
      subst (λ n. Valid n (s.locks.heap n) s.goroutines) (sym same) valid in
    let (refs, token, locked) = facts valid_k in
    let here = put-same k lock' s.locks in
    let moved =
      move-Valid k (s.locks.heap k) lock' s.goroutines g p p' at u u'
        (subst (λ n. On n p') (sym same) p'_on) refs token locked valid_k in
    let there : Valid k ((put k lock' s.locks).heap k) (set s.goroutines g p') =
      subst (λ x. Valid k x (set s.goroutines g p')) (sym here) moved in
    subst (λ c. ValidAt c (put k lock' s.locks) (set s.goroutines g p'))
      (sym (now ∙ ap some (sym same))) there

pub arrive-IsValid :
    (s : System) (g l : ℕ)
    → IsValid s
    → get_elem? s.goroutines g ≡ some (acquired l)
    → IsValid (moves s g (waiting l) (with_metrics note_contention l s.locks))
unfolding with_metrics note_contention uses held noted
arrive-IsValid s g l v at =
    follow s g l (acquired l) (waiting l)
      (record (s.locks.heap l) { metrics = note_contention (s.locks.heap l).metrics }) v at refl
      refl (λ n e. (e, e)) (λ valid. (refl, refl, ground arith))

pub receive-IsValid :
    (s : System) (g l : ℕ)
    → IsValid s
    → get_elem? s.goroutines g ≡ some (waiting l)
    → (s.locks.heap l).has_token ≡ true
    → IsValid (moves s g (got l) (with_token false l s.locks))
unfolding with_token uses held noted
receive-IsValid s g l v at token =
    follow s g l (waiting l) (got l) (record (s.locks.heap l) { has_token = false }) v at refl refl
      (λ n e. (e, e)) (λ valid. (refl, rw token refl, refl))

pub lock-IsValid :
    (s : System) (g l now elapsed : ℕ) (stack : String)
    → IsValid s
    → get_elem? s.goroutines g ≡ some (got l)
    → IsValid (moves s g (holding l) (with_metrics (note_locked now elapsed stack) l s.locks))
unfolding with_metrics note_locked uses held noted
lock-IsValid s g l now elapsed stack v at =
    follow s g l (got l) (holding l)
      (record (s.locks.heap l) { metrics = note_locked now elapsed stack (s.locks.heap l).metrics })
      v at refl refl (λ n e. (e, e))
      (λ (all, count, some_use, one, status).
        (refl, refl, omega (arith, total-noted s.goroutines g (got l) at)))

bit-le : (b : Bool) → bit b ≤ 1
bit-le true = omega arith
bit-le false = omega arith

note_unlocked-bit : (now : ℕ) (m : LockStatus) → bit (note_unlocked now m).is_locked ≡ 0
unfolding note_unlocked
note_unlocked-bit now m = elim (Bool-cases m.is_locked) [
  | inl yes_it_is ↦ ground arith
  | inr free ↦ ground arith
]

pub unlock-IsValid :
    (s : System) (g l now : ℕ)
    → IsValid s
    → get_elem? s.goroutines g ≡ some (holding l)
    → IsValid (moves s g (unlocking l) (with_metrics (note_unlocked now) l s.locks))
unfolding with_metrics note_unlocked uses held noted
unlock-IsValid s g l now v at =
    follow s g l (holding l) (unlocking l)
      (record (s.locks.heap l) { metrics = note_unlocked now (s.locks.heap l).metrics }) v at refl
      refl (λ n e. (e, e))
      (λ (all, count, some_use, one, status). (
        refl,
        refl,
        omega (
          arith,
          note_unlocked-bit now (s.locks.heap l).metrics,
          bit-le (s.locks.heap l).metrics.is_locked,
          total-get noted s.goroutines g (holding l) at,
          status,
        ),
      ))

pub send-IsValid :
    (s : System) (g l : ℕ)
    → IsValid s
    → get_elem? s.goroutines g ≡ some (unlocking l)
    → (s.locks.heap l).has_token ≡ false
    → IsValid (moves s g (leaving l) (with_token true l s.locks))
unfolding with_token uses held noted
send-IsValid s g l v at token =
    follow s g l (unlocking l) (leaving l) (record (s.locks.heap l) { has_token = true }) v at refl
      refl (λ n e. (e, e)) (λ valid. (refl, rw token refl, refl))

pub give_up-IsValid :
    (s : System) (g l : ℕ)
    → IsValid s
    → get_elem? s.goroutines g ≡ some (waiting l)
    → IsValid (moves s g (leaving l) s.locks)
unfolding uses held noted
give_up-IsValid s g l v at =
    let (n, now, on, valid) = user-current s g (waiting l) v at refl in
    subst (λ c. ValidAt c s.locks (set s.goroutines g (leaving l))) (sym now)
      (move-Valid n (s.locks.heap n) (s.locks.heap n) s.goroutines g (waiting l) (leaving l) at refl
        refl on refl refl refl valid)
