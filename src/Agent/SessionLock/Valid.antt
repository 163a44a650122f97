-- ===== src/Agent/SessionLock/Valid.antt =====
-- The invariant of a session lock.
use gobot.Prelude.{
  ℕ, zero, suc, ◌+◌, ◌≤◌, ◌≡◌, subst, inl, inr, Option, some, none, List, [], ◌∷◌, set, get_elem?,
  arith, Bool, true, false, Option-cases,
}
use gobot.Agent.SessionLock.{
  SessionLock, Locks, Phase, idle, acquired, waiting, got, holding, unlocking, leaving, System,
}
use gobot.Agent.SessionLock.Counts.{uses, held, noted, total, total-set, total-get}

abbrev pub bit : Bool → ℕ
bit true = 1
bit false = 0

-- The goroutine uses no lock but `l`.
abbrev pub On : ℕ → Phase → Type 0
On l idle = Unit {0}
On l (acquired k) = k ≡ l
On l (waiting k) = k ≡ l
On l (got k) = k ≡ l
On l (holding k) = k ≡ l
On l (unlocking k) = k ≡ l
On l (leaving k) = k ≡ l

abbrev pub AllOn : ℕ → List Phase → Type 0
AllOn l [] = Unit {0}
AllOn l (p ∷ ps) = On l p × AllOn l ps

-- The references are counted, the token is in the channel or with one goroutine, and the metrics
-- say whether a goroutine holds the lock.
abbrev pub Valid : ℕ → SessionLock → List Phase → Type 0
Valid l k ps =
    AllOn l ps
    × (k.ref_count ≡ total uses ps)
    × (1 ≤ total uses ps)
    × (bit k.has_token + total held ps ≡ 1)
    × (bit k.metrics.is_locked ≡ total noted ps)

abbrev pub ValidAt : Option ℕ → Locks → List Phase → Type 0
ValidAt none s ps = total uses ps ≡ 0
ValidAt (some l) s ps = Valid l (s.heap l) ps

abbrev pub IsValid : System → Type 0
IsValid s = ValidAt s.locks.current s.locks s.goroutines

pub AllOn-get :
    (l : ℕ) (ps : List Phase) (g : ℕ) (p : Phase) → AllOn l ps → get_elem? ps g ≡ some p → On l p
AllOn-get l [] g p h e = cc
AllOn-get l (q ∷ ps) zero p (on, h) e = let same : q ≡ p = cc in subst (On l) same on
AllOn-get l (q ∷ ps) (suc g) p (on, h) e = AllOn-get l ps g p h e

pub AllOn-set :
    (l : ℕ) (ps : List Phase) (g : ℕ) (p : Phase) → AllOn l ps → On l p → AllOn l (set ps g p)
AllOn-set l [] g p h on = tt
AllOn-set l (q ∷ ps) zero p (q_on, h) on = (on, h)
AllOn-set l (q ∷ ps) (suc g) p (q_on, h) on = (q_on, AllOn-set l ps g p h on)

-- A goroutine that uses a lock uses the current one.
pub user-current :
    (s : System) (g : ℕ) (p : Phase)
    → IsValid s
    → get_elem? s.goroutines g ≡ some p
    → uses p ≡ 1
    → (l : ℕ) × (s.locks.current ≡ some l) × On l p × Valid l (s.locks.heap l) s.goroutines
user-current s g p v at u = elim (Option-cases (s.locks.current)) [
  | inl nothing ↦
      let none_used : total uses s.goroutines ≡ 0 =
        subst (λ c. ValidAt c s.locks s.goroutines) nothing v in
      absurd (omega (arith, total-get uses s.goroutines g p at))
  | inr (l, now) ↦
      let valid = subst (λ c. ValidAt c s.locks s.goroutines) now v in
      (l, now, AllOn-get l s.goroutines g p valid.0 at, valid)
]

-- A goroutine moves on with its lock.
pub move-Valid :
    (l : ℕ) (k k' : SessionLock) (ps : List Phase) (g : ℕ) (p p' : Phase)
    → get_elem? ps g ≡ some p
    → uses p ≡ 1
    → uses p' ≡ 1
    → On l p'
    → k'.ref_count ≡ k.ref_count
    → bit k'.has_token + held p' ≡ bit k.has_token + held p
    → bit k'.metrics.is_locked + noted p ≡ bit k.metrics.is_locked + noted p'
    → Valid l k ps
    → Valid l k' (set ps g p')
move-Valid l k k' ps g p p' at u u' on refs token locked (all, count, some_use, one, status) = (
  AllOn-set l ps g p' all on,
  omega (arith, total-set uses ps g p p' at),
  omega (arith, total-set uses ps g p p' at),
  omega (arith, total-set held ps g p p' at),
  omega (arith, total-set noted ps g p p' at),
)
