-- ===== src/Agent/SessionLock/References.antt =====
-- The invariant of a session lock under acquireLock and release.
use gobot.Prelude.{
  ℕ, suc, ◌+◌, ◌-◌, ◌≤◌, ◌≡◌, refl, ap, sym, ◌∙◌, subst, inl, inr, some, none, List, [], ◌∷◌, set,
  get_elem?, arith, Bool-cases, Option-cases, ltb,
}
use gobot.Agent.SessionLock.{
  SessionLock, Locks, put, new_lock, count_ref, acquire_lock, release, Phase, idle, acquired,
  waiting, got, holding, unlocking, leaving, System, moves,
}
use gobot.Agent.SessionLock.Counts.{uses, held, noted, total, total-set}
use gobot.Agent.SessionLock.Valid.{bit, AllOn, Valid, ValidAt, IsValid, AllOn-set, user-current}
use gobot.Agent.SessionLock.Moves.{put-same}

idle-AllOn : (l : ℕ) (ps : List Phase) → total uses ps ≡ 0 → AllOn l ps
unfolding total uses
idle-AllOn l [] h = tt
idle-AllOn l (idle ∷ ps) h = (tt, idle-AllOn l ps (omega arith))
idle-AllOn l (acquired k ∷ ps) h = absurd (omega arith)
idle-AllOn l (waiting k ∷ ps) h = absurd (omega arith)
idle-AllOn l (got k ∷ ps) h = absurd (omega arith)
idle-AllOn l (holding k ∷ ps) h = absurd (omega arith)
idle-AllOn l (unlocking k ∷ ps) h = absurd (omega arith)
idle-AllOn l (leaving k ∷ ps) h = absurd (omega arith)

held-uses : (ps : List Phase) → (total held ps ≤ total uses ps) × (total noted ps ≤ total uses ps)
unfolding total uses held noted
held-uses [] = (omega arith, omega arith)
held-uses (idle ∷ ps) = let h = held-uses ps in (omega (arith, h.0), omega (arith, h.1))
held-uses (acquired k ∷ ps) = let h = held-uses ps in (omega (arith, h.0), omega (arith, h.1))
held-uses (waiting k ∷ ps) = let h = held-uses ps in (omega (arith, h.0), omega (arith, h.1))
held-uses (got k ∷ ps) = let h = held-uses ps in (omega (arith, h.0), omega (arith, h.1))
held-uses (holding k ∷ ps) = let h = held-uses ps in (omega (arith, h.0), omega (arith, h.1))
held-uses (unlocking k ∷ ps) = let h = held-uses ps in (omega (arith, h.0), omega (arith, h.1))
held-uses (leaving k ∷ ps) = let h = held-uses ps in (omega (arith, h.0), omega (arith, h.1))

at-Valid :
    (locks : Locks) (ps : List Phase) (l : ℕ)
    → locks.current ≡ some l
    → Valid l (locks.heap l) ps
    → ValidAt locks.current locks ps
at-Valid locks ps l now v = subst (λ c. ValidAt c locks ps) (sym now) v

-- One more goroutine refers to the lock.
join-Valid :
    (l g : ℕ) (k : SessionLock) (ps : List Phase)
    → get_elem? ps g ≡ some idle
    → AllOn l ps
    → k.ref_count ≡ total uses ps
    → bit k.has_token + total held ps ≡ 1
    → bit k.metrics.is_locked ≡ total noted ps
    → Valid l (record k { ref_count = suc k.ref_count }) (set ps g (acquired l))
unfolding uses held noted
join-Valid l g k ps at all count one status = (
  AllOn-set l ps g (acquired l) all refl,
  omega (arith, total-set uses ps g idle (acquired l) at),
  omega (arith, total-set uses ps g idle (acquired l) at),
  omega (arith, total-set held ps g idle (acquired l) at),
  omega (arith, total-set noted ps g idle (acquired l) at),
)

pub acquire-IsValid :
    (s : System) (g : ℕ)
    → IsValid s
    → get_elem? s.goroutines g ≡ some idle
    → IsValid (moves s g (acquired (acquire_lock s.locks).0) (acquire_lock s.locks).1)
unfolding acquire_lock count_ref put new_lock uses held noted
acquire-IsValid s g v at = elim (Option-cases (s.locks.current)) [
  | inl nothing ↦
      let none_used : total uses s.goroutines ≡ 0 =
        subst (λ c. ValidAt c s.locks s.goroutines) nothing v in
      let few = held-uses s.goroutines in
      let l = s.locks.next in
      let made = record (put l new_lock s.locks) { current = some l; next = suc l } in
      let same : acquire_lock s.locks ≡ (l, count_ref l made) = ground arith in
      let new : made.heap l ≡ new_lock = put-same l new_lock s.locks in
      let joined =
        join-Valid l g new_lock s.goroutines at (idle-AllOn l s.goroutines none_used) (omega arith)
          (omega arith) (omega arith) in
      let counted : (count_ref l made).heap l ≡ record new_lock { ref_count = 1 } =
        put-same l (record (made.heap l) { ref_count = suc (made.heap l).ref_count }) made
        ∙ ap {A = SessionLock} {B = SessionLock} (λ k. record k { ref_count = suc k.ref_count })
            new in
      subst (λ r. IsValid (moves s g (acquired r.0) r.1)) (sym same)
        (subst (λ k. Valid l k (set s.goroutines g (acquired l))) (sym counted) joined)
  | inr (l, now) ↦
      let valid = subst (λ c. ValidAt c s.locks s.goroutines) now v in
      let (all, count, some_use, one, status) = valid in
      let same : acquire_lock s.locks ≡ (l, count_ref l s.locks) = ground arith in
      let joined = join-Valid l g (s.locks.heap l) s.goroutines at all count one status in
      let counted =
        put-same l (record (s.locks.heap l) { ref_count = suc (s.locks.heap l).ref_count })
          s.locks in
      subst (λ r. IsValid (moves s g (acquired r.0) r.1)) (sym same)
        (at-Valid (count_ref l s.locks) (set s.goroutines g (acquired l)) l now
          (subst (λ k. Valid l k (set s.goroutines g (acquired l))) (sym counted) joined))
]

pub leave-IsValid :
    (s : System) (g l : ℕ)
    → IsValid s
    → get_elem? s.goroutines g ≡ some (leaving l)
    → IsValid (moves s g idle (release l s.locks))
unfolding release put uses held noted
leave-IsValid s g l v at =
    let (n, now, on, valid) = user-current s g (leaving l) v at refl in
    let (all, count, some_use, one, status) =
      subst (λ m. Valid m (s.locks.heap m) s.goroutines) (sym on) valid in
    let lock' = record (s.locks.heap l) { ref_count = (s.locks.heap l).ref_count - 1 } in
    let ps' = set s.goroutines g idle in
    let uses' = total-set uses s.goroutines g (leaving l) idle at in
    elim (Bool-cases (ltb 1 (s.locks.heap l).ref_count)) [
      | inl more ↦
          let same : release l s.locks ≡ put l lock' s.locks = ground arith in
          let many : 2 ≤ (s.locks.heap l).ref_count = ground arith in
          let left : Valid l lock' ps' = (
            AllOn-set l s.goroutines g idle all tt,
            omega arith,
            omega arith,
            omega (arith, total-set held s.goroutines g (leaving l) idle at),
            omega (arith, total-set noted s.goroutines g (leaving l) idle at),
          ) in
          subst (λ r. IsValid (moves s g idle r)) (sym same)
            (at-Valid (put l lock' s.locks) ps' l (now ∙ ap some (sym on))
              (subst (λ k. Valid l k ps') (sym (put-same l lock' s.locks)) left))
      | inr last ↦
          let same : release l s.locks ≡ record (put l lock' s.locks) { current = none } =
            ground arith in
          let only : (s.locks.heap l).ref_count ≤ 1 = ground arith in
          let unused : total uses ps' ≡ 0 = omega arith in
          subst (λ r. IsValid (moves s g idle r)) (sym same) unused
    ]
