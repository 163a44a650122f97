-- ===== src/State/Lock/Exclusion.antt =====
-- Lock: who holds the lock of a workflow, in runs without stale files and in others.
use gobot.Prelude.{
  ℕ, ◌+◌, ◌<◌, ◌==◌, ◌≡◌, ◌≢◌, refl, ap, sym, ◌∙◌, subst, inl, inr, Option, none, some, arith,
  Bool-cases,
}
use gobot.State.Lock.{
  LockFile, Phase, outside, trying, removing, cleaning, holding, Locks, move, put_file, Step, calm,
  later, begin, create, busy, stale, remove, remove_failed, give_up, release, release_failed, swept,
  Initial, Run, Calm,
}

-- A phase of a run without stale files, and the lock file that it answers for.
abbrev Owns : Phase → ℕ → Option LockFile → Type 0
Owns outside p f = Unit
Owns (trying d) p f = Unit
Owns (removing d) p f = ⊥
Owns cleaning p f = ⊥
Owns holding p f = (m : ℕ) × (f ≡ some (record { creator = p; mod_time = m }))

abbrev creator_of : Option LockFile → ℕ
creator_of none = 0
creator_of (some f) = f.creator

abbrev Owned : Locks → Type 0
Owned s = (p : ℕ) → Owns (s.phase p) p s.file

-- A process that moves, with the file as it was for all the others.
moved :
    (s : Locks) (p : ℕ) (to : Phase) (f : Option LockFile)
    → Owns to p f
    → ((q : ℕ) → q ≢ p → Owns (s.phase q) q f)
    → Owned (move p to (put_file f s))
moved s p to f own rest q = elim (Bool-cases (q == p)) [
  | inl same ↦ let here : q ≡ p = ground arith in rw (same, here) own
  | inr other ↦ rw other (rest q (ground arith))
]

-- A process that the file does not belong to answers for no file.
not_owner :
    (ph : Phase) (q : ℕ) (f g : Option LockFile)
    → Owns ph q f
    → ((m : ℕ) → f ≢ some (record { creator = q; mod_time = m }))
    → Owns ph q g
not_owner outside q f g o other = tt
not_owner (trying d) q f g o other = tt
not_owner (removing d) q f g o other = o
not_owner cleaning q f g o other = o
not_owner holding q f g (m, e) other = absurd (other m e)

alone :
    (s : Locks) (p q : ℕ) (g : Option LockFile)
    → Owned s
    → s.phase p ≡ holding
    → q ≢ p
    → Owns (s.phase q) q g
alone s p q g owned h ne =
    let (m, mine) = subst (λ f. Owns f p s.file) h (owned p) in
    not_owner (s.phase q) q s.file g (owned q) (λ n e. ne (ap creator_of (sym e ∙ mine)))

step-Owned :
    (timeout max_age : ℕ) {s s' : Locks} → Step timeout max_age calm s s' → Owned s → Owned s'
step-Owned timeout max_age (later s d) owned = owned
step-Owned timeout max_age (begin s p at) owned = moved s p _ s.file tt (λ q ne. owned q)
step-Owned timeout max_age (create s p d at lt free) owned =
    moved s p holding _ (s.now, refl)
      (λ q ne. not_owner (s.phase q) q s.file _ (owned q) (λ m e. absurd (ground arith)))
step-Owned timeout max_age (busy s p d at) owned = owned
step-Owned timeout max_age (remove s p d at) owned =
    absurd (subst (λ f. Owns f p s.file) at (owned p))
step-Owned timeout max_age (remove_failed s p d at) owned =
    absurd (subst (λ f. Owns f p s.file) at (owned p))
step-Owned timeout max_age (give_up s p d at le) owned =
    moved s p outside s.file tt (λ q ne. owned q)
step-Owned timeout max_age (release s p at) owned =
    moved s p outside none tt (λ q ne. alone s p q none owned at ne)
step-Owned timeout max_age (release_failed s p at) owned =
    moved s p outside s.file tt (λ q ne. owned q)
step-Owned timeout max_age (swept s p at) owned = absurd (subst (λ f. Owns f p s.file) at (owned p))

Initial-Owned : (s : Locks) → Initial s → Owned s
Initial-Owned s fresh p = rw (fresh p) tt

Calm-Owned : {timeout max_age : ℕ} {s : Locks} → Calm timeout max_age s → Owned s
Calm-Owned (Calm.start s fresh) = Initial-Owned s fresh
Calm-Owned {timeout = timeout} {max_age = max_age} (Calm.step run next) =
    step-Owned timeout max_age next (Calm-Owned run)

-- In every state of a run in which no lock file is ever found stale, two processes that hold the
-- lock are the same one, and the lock file is there and is the one that it created.
pub Calm-exclusive :
    (timeout max_age : ℕ) (s : Locks) (p q : ℕ)
    → Calm timeout max_age s
    → s.phase p ≡ holding
    → s.phase q ≡ holding
    → (p ≡ q) × ((m : ℕ) × (s.file ≡ some (record { creator = p; mod_time = m })))
Calm-exclusive timeout max_age s p q run hp hq =
    let owned = Calm-Owned run in
    let (m, e) = subst (λ f. Owns f p s.file) hp (owned p) in
    let (n, e') = subst (λ f. Owns f q s.file) hq (owned q) in (ap creator_of (sym e ∙ e'), (m, e))

-- Whatever the timeout, as long as it is positive: from an abandoned lock file that has become stale
-- and processes outside, two processes can both come to hold the lock without any time passing, so
-- that neither has outstayed its timeout; the lock file is then the second one's, of that very time.
pub Run-overlap :
    (timeout max_age : ℕ)
    → 0 < timeout
    → (s s' : Locks) × (left : LockFile) × Initial s
      × (s.file ≡ some left)
      × (left.mod_time + timeout < s.now)
      × Run timeout max_age s s'
      × (s'.now ≡ s.now)
      × (s'.phase 1 ≡ holding)
      × (s'.phase 2 ≡ holding)
      × (s'.file ≡ some (record { creator = 2; mod_time = s.now }))
Run-overlap timeout max_age positive =
    let t = timeout + 1 in
    let left : LockFile = record { creator = 0; mod_time = 0 } in
    let s0 : Locks = record { now = t; file = some left; phase = λ q. outside } in
    let s1 = move 1 (trying (t + timeout)) s0 in
    let s2 = move 2 (trying (t + timeout)) s1 in
    let s3 = move 1 (removing (t + timeout)) s2 in
    let s4 = move 2 (removing (t + timeout)) s3 in
    let s5 = move 1 (trying (t + timeout)) (put_file none s4) in
    let s6 = move 1 holding (put_file (some (record { creator = 1; mod_time = t })) s5) in
    let s7 = move 2 (trying (t + timeout)) (put_file none s6) in
    let s8 = move 2 holding (put_file (some (record { creator = 2; mod_time = t })) s7) in
    let r0 : Run timeout max_age s0 s0 = Run.here in
    let r1 : Run timeout max_age s0 s1 = Run.step r0 (begin s0 1 refl) in
    let r2 : Run timeout max_age s0 s2 = Run.step r1 (begin s1 2 refl) in
    let r3 : Run timeout max_age s0 s3 =
      Run.step r2 (stale s2 1 (t + timeout) left refl refl (omega arith)) in
    let r4 : Run timeout max_age s0 s4 =
      Run.step r3 (stale s3 2 (t + timeout) left refl refl (omega arith)) in
    let r5 : Run timeout max_age s0 s5 = Run.step r4 (remove s4 1 (t + timeout) refl) in
    let r6 : Run timeout max_age s0 s6 =
      Run.step r5 (create s5 1 (t + timeout) refl (omega arith) refl) in
    let r7 : Run timeout max_age s0 s7 = Run.step r6 (remove s6 2 (t + timeout) refl) in
    let r8 : Run timeout max_age s0 s8 =
      Run.step r7 (create s7 2 (t + timeout) refl (omega arith) refl) in
    (s0, s8, left, (λ p. refl), refl, omega arith, r8, refl, refl, refl, refl)
