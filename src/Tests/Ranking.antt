-- ===== src/Tests/Ranking.antt =====
-- A run of applyMMR of internal/memory/vector/hybrid.go over small whole numbers.
use gobot.Prelude.{
  ℕ, ◌+◌, ◌-◌, ◌*◌, ◌==◌, ltb, ◌≡◌, refl, false, some, List, [], ◌∷◌, ◌++◌, length, arith,
}
use gobot.Prelude.Int.{pos, pos_part}
use mathlib.Core.List.{Perm}
use gobot.Memory.Hybrid.{
  Float32, VectorResult, indices_from, collect, clamp_limit, apply_mmr, select_loop, find_best,
  max_sim, cosine_similarity,
}
use gobot.Memory.Hybrid.Selection.Results.{apply_mmr-selects}

abbrev small : Float32 ℕ
small = record {
  nought = 0;
  lowest = 0;
  one = 1;
  add = λ a b. a + b;
  sub = λ a b. a - b;
  mul = λ a b. a * b;
  div = λ a b. a - b;
  sqrt = λ a. a;
  is_nought = λ a. a == 0;
  greater = λ a b. ltb b a;
  is_nan = λ a. false;
}

abbrev facts : List (VectorResult ℕ)
facts =
    record { similarity = 3; embedding = 1 ∷ [] }
    ∷ record { similarity = 5; embedding = 2 ∷ [] }
    ∷ record { similarity = 4; embedding = [] }
    ∷ []

apply_mmr-best :
    apply_mmr small 4 facts 1 (pos 2)
    ≡ some (
        record { similarity = 5; embedding = 2 ∷ [] }
        ∷ record { similarity = 4; embedding = [] }
        ∷ [])
unfolding apply_mmr select_loop find_best max_sim cosine_similarity
apply_mmr-best = refl

apply_mmr-selects_example :
    (picked : List ℕ) × (rest : List ℕ) × (out : List (VectorResult ℕ)) × (apply_mmr small 4 facts 1
        (pos 2)
      ≡ some out)
    × (collect facts picked ≡ some out)
    × Perm (picked ++ rest) (indices_from 0 (length facts))
    × (length picked ≡ pos_part (clamp_limit facts (pos 2)))
apply_mmr-selects_example = apply_mmr-selects small 4 facts 1 (pos 2) (omega arith)
