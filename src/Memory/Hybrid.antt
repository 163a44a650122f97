-- ===== src/Memory/Hybrid.antt =====
-- internal/memory/vector/hybrid.go: the re-ranking of the vector results (applyMMR). Floating-point
-- numbers are parameters. An index out of bounds is `none`; so is a loop that runs out of fuel.
pub mod Selection
use gobot.Prelude.{
  ℕ, zero, suc, ◌+◌, Bool, true, false, not, ◌||◌, ltb, ◌==◌, Option, none, some, List, [], ◌∷◌,
  ◌++◌, length, get_elem?, take, drop, if◌then◌else◌,
}
use gobot.Prelude.Int.{ℤ, pos, leb_ℤ, pos_part}

-- float32: `lowest` is -math.MaxFloat32, and `greater a b` is a > b.
pub record Float32 (F : Type 0) : Type 0 where
  pub nought : F
  pub lowest : F
  pub one : F
  pub add : F → F → F
  pub sub : F → F → F
  pub mul : F → F → F
  pub div : F → F → F
  pub sqrt : F → F
  pub is_nought : F → Bool
  pub greater : F → F → Bool
  pub is_nan : F → Bool

-- The part of a chromem.Result that is read here.
pub record VectorResult (F : Type 0) : Type 0 where
  pub similarity : F
  pub embedding : List F

pub record Sums (F : Type 0) : Type 0 where
  pub dot_product : F
  pub norm_a : F
  pub norm_b : F

pub record Best (F : Type 0) : Type 0 where
  pub chosen : Option (ℕ × ℕ)
  pub score : F

-- append(xs[:i], xs[i+1:]...)
abbrev pub remove_at : List ℕ → ℕ → List ℕ
remove_at xs i = take i xs ++ drop (suc i) xs

abbrev pub indices_from : ℕ → ℕ → List ℕ
indices_from i zero = []
indices_from i (suc n) = i ∷ indices_from (suc i) n

-- bestIdx and bestUnselectedIdx, with the fallback for -1.
abbrev pub choose : Option (ℕ × ℕ) → List ℕ → Option (ℕ × ℕ)
choose (some p) unselected = some p
choose none [] = none
choose none (idx ∷ unselected) = some (idx, 0)

-- The last clauses stand for an index out of bounds, which equal lengths exclude.
abbrev pub sum_products : {F : Type 0} → Float32 F → List F → List F → Sums F → Sums F
sum_products ops (a ∷ xs) (b ∷ ys) s = sum_products ops xs ys (record {
  dot_product = ops.add s.dot_product (ops.mul a b);
  norm_a = ops.add s.norm_a (ops.mul a a);
  norm_b = ops.add s.norm_b (ops.mul b b);
})
sum_products ops [] ys s = s
sum_products ops (a ∷ xs) [] s = s

-- results[idx] for the selected indices.
abbrev pub collect : {F : Type 0} → List (VectorResult F) → List ℕ → Option (List (VectorResult F))
collect results [] = some []
collect results (idx ∷ selected) = elim (get_elem? results idx) [
  | none ↦ none
  | some r ↦ elim (collect results selected) [ none ↦ none | some rs ↦ some (r ∷ rs) ]
]

abbrev pub clamp_limit : {F : Type 0} → List (VectorResult F) → ℤ → ℤ
clamp_limit results limit =
    if leb_ℤ (pos (length results)) limit then pos (length results) else limit

module _ {F : Type 0} (ops : Float32 F) where
  unfoldable pub cosine_similarity : List F → List F → F
  cosine_similarity a b =
      if not (length a == length b) || (length a == 0)
      then ops.nought
      else let s =
          sum_products ops a b
            (record { dot_product = ops.nought; norm_a = ops.nought; norm_b = ops.nought }) in
        if ops.is_nought s.norm_a || ops.is_nought s.norm_b
        then ops.nought
        else ops.div s.dot_product (ops.mul (ops.sqrt s.norm_a) (ops.sqrt s.norm_b))

  -- maxSim2 over the indices that are selected, from the value so far.
  unfoldable pub max_sim : List (VectorResult F) → VectorResult F → List ℕ → F → Option F
  max_sim results candidate [] m = some m
  max_sim results candidate (s ∷ selected) m = elim (get_elem? results s) [
    | none ↦ none
    | some r ↦
        let sim2 = cosine_similarity candidate.embedding r.embedding in
        max_sim results candidate selected (if ops.greater sim2 m then sim2 else m)
  ]

  abbrev pub mmr_score : F → F → F → F
  mmr_score lambda sim1 max_sim2 =
      let v = ops.sub (ops.mul lambda sim1) (ops.mul (ops.sub ops.one lambda) max_sim2) in
      if ops.is_nan v then ops.nought else v

  abbrev pub improve : ℕ → ℕ → F → Best F → Best F
  improve idx i v best =
      if ops.greater v best.score then record { chosen = some (idx, i); score = v } else best

  -- The loop over `unselected`, from its place `i`.
  unfoldable pub find_best :
      List (VectorResult F) → F → List ℕ → ℕ → Best F → List ℕ → Option (Best F)
  find_best results lambda selected i best [] = some best
  find_best results lambda selected i best (idx ∷ unselected) = elim (get_elem? results idx) [
    | none ↦ none
    | some candidate ↦ elim (max_sim results candidate selected ops.nought) [
      | none ↦ none
      | some max_sim2 ↦
          find_best results lambda selected (suc i)
            (improve idx i (mmr_score lambda candidate.similarity max_sim2) best) unselected
    ]
  ]

  abbrev pub pick_best : List (VectorResult F) → F → List ℕ → List ℕ → Option (ℕ × ℕ)
  pick_best results lambda selected unselected =
      elim (find_best results lambda selected 0 (record { chosen = none; score = ops.lowest })
        unselected) [ none ↦ none | some best ↦ choose best.chosen unselected ]

  -- The outer loop, on the indices `selectedIdx` of the selected results.
  unfoldable pub select_loop : ℕ → List (VectorResult F) → F → ℕ → List ℕ → List ℕ → Option (List ℕ)
  select_loop zero results lambda limit selected unselected = none
  select_loop (suc fuel) results lambda limit selected [] = some selected
  select_loop (suc fuel) results lambda limit selected (u ∷ us) =
      if ltb (length selected) limit
      then elim (pick_best results lambda selected (u ∷ us)) [
        | none ↦ none
        | some (idx, at) ↦
            select_loop fuel results lambda limit (selected ++ (idx ∷ [])) (remove_at (u ∷ us) at)
      ]
      else some selected

  unfoldable pub apply_mmr : ℕ → List (VectorResult F) → F → ℤ → Option (List (VectorResult F))
  apply_mmr fuel results lambda limit =
      let n = clamp_limit results limit in
      if leb_ℤ n (pos 0) || (length results == 0)
      then some []
      else elim (select_loop fuel results lambda (pos_part n) []
          (indices_from 0 (length results))) [
            | none ↦ none
            | some selected ↦ collect results selected
          ]
