-- ===== src/Memory/Hybrid/Selection/Results.antt =====
-- applyMMR as a whole: how many results are selected, and that none is selected twice.
use gobot.Prelude.{
  ℕ, zero, suc, ◌+◌, ◌<◌, ◌≤◌, ◌≡◌, refl, ap, inl, inr, true, ◌==◌, ◌||◌, some, List, [], ◌∷◌, ◌++◌,
  length, get_elem?, In, arith, Bool-cases,
}
use gobot.Prelude.Int.{ℤ, pos, negsuc, pos_part, leb_ℤ}
use mathlib.Core.List.{Perm}
use mathlib.Core.List.Perm
use gobot.Memory.Hybrid.{Float32, VectorResult, indices_from, collect, clamp_limit, apply_mmr}
use gobot.Memory.Hybrid.Selection.{InRange, select_loop-IsSelection}

indices_from-bound : (k n i : ℕ) → In i (indices_from k n) → i < k + n
indices_from-bound k zero i h = absurd h
indices_from-bound k (suc n) i (inl e) = ground arith
indices_from-bound k (suc n) i (inr h) = let below = indices_from-bound (suc k) n i h in omega arith

length-indices_from : (k n : ℕ) → length (indices_from k n) ≡ n
length-indices_from k zero = refl
length-indices_from k (suc n) = ap suc (length-indices_from (suc k) n)

get_elem?-some :
    {F : Type 0} (xs : List F) (i : ℕ) → i < length xs → (x : F) × (get_elem? xs i ≡ some x)
get_elem?-some [] i lt = absurd (omega arith)
get_elem?-some (x ∷ xs) zero lt = (x, refl)
get_elem?-some (x ∷ xs) (suc i) lt = get_elem?-some xs i (omega arith)

indices_from-InRange :
    {F : Type 0} (results : List (VectorResult F))
    → InRange results (indices_from 0 (length results))
indices_from-InRange results i h =
    get_elem?-some results i (let below = indices_from-bound 0 (length results) i h in omega arith)

collect-some :
    {F : Type 0} (results : List (VectorResult F)) (picked : List ℕ)
    → InRange results picked
    → (out : List (VectorResult F)) × (collect results picked ≡ some out)
collect-some results [] h = ([], refl)
collect-some results (i ∷ picked) h =
    let (r, found) = h i (inl refl) in
    let (out, e) = collect-some results picked (λ j k. h j (inr k)) in
    (r ∷ out, rw (collect, found, e) refl)

-- A positive limit that is no larger than the results, or no result at all.
clamp-nothing :
    {F : Type 0} (results : List (VectorResult F)) (limit : ℤ)
    → leb_ℤ (clamp_limit results limit) (pos 0) || (length results == 0) ≡ true
    → 0 ≡ pos_part (clamp_limit results limit)
clamp-nothing results (pos n) h = ground arith
clamp-nothing results (negsuc n) h = ground arith

clamp-bounded :
    {F : Type 0} (results : List (VectorResult F)) (limit : ℤ)
    → pos_part (clamp_limit results limit) ≤ length results
clamp-bounded results (pos n) = ground arith
clamp-bounded results (negsuc n) = ground arith

-- With more fuel than results, applyMMR ends and gives the results at some indices, of which no one
-- comes twice and all lie in the list: as many as the limit, or as the list has, or none for a
-- limit below 1. This holds for any floating-point operations, NaN included.
pub apply_mmr-selects :
    {F : Type 0} (ops : Float32 F) (fuel : ℕ) (results : List (VectorResult F)) (lambda : F)
    (limit : ℤ)
    → length results < fuel
    → (picked : List ℕ) × (rest : List ℕ) × (out : List (VectorResult F)) × (apply_mmr ops fuel
          results lambda limit
        ≡ some out)
      × (collect results picked ≡ some out)
      × Perm (picked ++ rest) (indices_from 0 (length results))
      × (length picked ≡ pos_part (clamp_limit results limit))
unfolding apply_mmr
apply_mmr-selects ops fuel results lambda limit lt =
    let n = clamp_limit results limit in
    let indices = indices_from 0 (length results) in
    let total = length-indices_from 0 (length results) in
    elim (Bool-cases (leb_ℤ n (pos 0) || (length results == 0))) [
      | inl nothing ↦ (
        [],
        indices,
        [],
        rw (apply_mmr, nothing) refl,
        refl,
        Perm.refl indices,
        clamp-nothing results limit nothing,
      )
      | inr something ↦
          let bound = clamp-bounded results limit in
          let (picked, rest, e, perm, len, range) =
            select_loop-IsSelection ops results lambda fuel (pos_part n) [] indices (omega arith)
              (omega arith) (omega arith) (λ i h. absurd h) (indices_from-InRange results) in
          let (out, collected) = collect-some results picked range in
          (picked, rest, out, rw (apply_mmr, something, e) collected, collected, perm, len)
    ]
