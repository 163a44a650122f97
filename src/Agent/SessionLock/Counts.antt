-- ===== src/Agent/SessionLock/Counts.antt =====
-- The goroutines of a session lock, counted by where they stand.
use gobot.Prelude.{
  ℕ, zero, suc, ◌+◌, ◌≤◌, ◌≡◌, ◌≢◌, refl, ap, some, List, [], ◌∷◌, set, get_elem?, arith,
}
use gobot.Agent.SessionLock.{Phase, idle, acquired, waiting, got, holding, unlocking, leaving}

-- Has a reference to a lock; has the token; has noted that it holds the lock.
unfoldable pub uses : Phase → ℕ
uses idle = 0
uses (acquired l) = 1
uses (waiting l) = 1
uses (got l) = 1
uses (holding l) = 1
uses (unlocking l) = 1
uses (leaving l) = 1

unfoldable pub held : Phase → ℕ
held (got l) = 1
held (holding l) = 1
held (unlocking l) = 1
held p = 0

unfoldable pub noted : Phase → ℕ
noted (holding l) = 1
noted p = 0

unfoldable pub total : (Phase → ℕ) → List Phase → ℕ
total w [] = 0
total w (p ∷ ps) = w p + total w ps

pub total-set :
    (w : Phase → ℕ) (ps : List Phase) (g : ℕ) (p p' : Phase)
    → get_elem? ps g ≡ some p
    → total w (set ps g p') + w p ≡ total w ps + w p'
unfolding total
total-set w [] g p p' h = cc
total-set w (q ∷ ps) zero p p' h = let same : q ≡ p = cc in omega (arith, ap w same)
total-set w (q ∷ ps) (suc g) p p' h = omega (arith, total-set w ps g p p' h)

pub total-get :
    (w : Phase → ℕ) (ps : List Phase) (g : ℕ) (p : Phase)
    → get_elem? ps g ≡ some p
    → w p ≤ total w ps
unfolding total
total-get w [] g p h = cc
total-get w (q ∷ ps) zero p h = let same : q ≡ p = cc in omega (arith, ap w same)
total-get w (q ∷ ps) (suc g) p h = omega (arith, total-get w ps g p h)

pub total-two :
    (w : Phase → ℕ) (ps : List Phase) (i j : ℕ) (p q : Phase)
    → get_elem? ps i ≡ some p
    → get_elem? ps j ≡ some q
    → i ≢ j
    → w p + w q ≤ total w ps
unfolding total
total-two w [] i j p q hi hj ne = cc
total-two w (r ∷ ps) zero zero p q hi hj ne = absurd (ne refl)
total-two w (r ∷ ps) zero (suc j) p q hi hj ne =
    let same : r ≡ p = cc in omega (arith, ap w same, total-get w ps j q hj)
total-two w (r ∷ ps) (suc i) zero p q hi hj ne =
    let same : r ≡ q = cc in omega (arith, ap w same, total-get w ps i p hi)
total-two w (r ∷ ps) (suc i) (suc j) p q hi hj ne =
    omega (arith, total-two w ps i j p q hi hj (λ e. ne (ap suc e)))

noted-held : (p : Phase) → noted p ≤ held p
unfolding noted held
noted-held idle = omega arith
noted-held (acquired l) = omega arith
noted-held (waiting l) = omega arith
noted-held (got l) = omega arith
noted-held (holding l) = omega arith
noted-held (unlocking l) = omega arith
noted-held (leaving l) = omega arith

noted-held_all : (ps : List Phase) → total noted ps ≤ total held ps
unfolding total
noted-held_all [] = omega arith
noted-held_all (p ∷ ps) = omega (arith, noted-held p, noted-held_all ps)

-- A goroutine that has the token without noting it keeps the noted ones apart from the holders.
pub total-noted :
    (ps : List Phase) (g : ℕ) (p : Phase)
    → get_elem? ps g ≡ some p
    → total noted ps + held p ≤ total held ps + noted p
unfolding total noted held
total-noted [] g p h = cc
total-noted (q ∷ ps) zero p h =
    let same : q ≡ p = cc in omega (arith, ap noted same, ap held same, noted-held_all ps)
total-noted (q ∷ ps) (suc g) p h = omega (arith, total-noted ps g p h, noted-held q)
