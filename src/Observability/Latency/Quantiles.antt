-- ===== src/Observability/Latency/Quantiles.antt =====
-- Latency: the quantiles of a snapshot against the samples of its window.
use gobot.Prelude.{
  ℕ, zero, suc, ◌-◌, ◌≤◌, ◌<◌, ◌≡◌, refl, sym, subst, inl, inr, some, List, [], ◌∷◌, String, ltb,
  length, get_or, In, if◌then◌else◌, arith,
}
use gobot.Prelude.Int.{ℤ, pos, pos_part, ltb_ℤ, ◌≤ℤ◌}
use gobot.Observability.Latency.{nearest_rank, snapshot_metric}

In-get_or : {A : Type 0} (xs : List A) (i : ℕ) (d : A) → i < length xs → In (get_or xs i d) xs
In-get_or [] i d h = absurd (omega arith)
In-get_or (x ∷ xs) zero d h = inl refl
In-get_or (x ∷ xs) (suc i) d h = inr (In-get_or xs i d (omega arith))

-- What sort.Slice does with the samples of one window, by the order of their values.
pub record Sorts (sort_slice : List ℤ → List ℤ) (xs : List ℤ) : Type 0 where
  pub kept : (x : ℤ) → In x (sort_slice xs) → In x xs
  pub same_length : length (sort_slice xs) ≡ length xs
  pub ordered :
      (i j : ℕ)
      → i ≤ j
      → j < length (sort_slice xs)
      → get_or (sort_slice xs) i (pos 0) ≤ℤ get_or (sort_slice xs) j (pos 0)

-- The rank of the larger percentile is not below the other's.
abbrev pub Monotone : (ℕ → ℕ → ℤ) → ℕ → Type 0
Monotone ceil_rank n = ceil_rank 50 n ≤ℤ ceil_rank 99 n

module _ (sort_slice : List ℤ → List ℤ) (ceil_rank : ℕ → ℕ → ℤ) where
  -- The index that nearestRank reads.
  abbrev rank_index : ℕ → ℕ → ℕ
  rank_index n percentile =
      let rank = ceil_rank percentile n in
      let low = if ltb_ℤ rank (pos 1) then 1 else pos_part rank in
      (if ltb n low then n else low) - 1

  rank_index-lt : (n percentile : ℕ) → 1 ≤ n → rank_index n percentile < n
  rank_index-lt n percentile le = ground arith

  rank_index-le : (n : ℕ) → Monotone ceil_rank n → rank_index n 50 ≤ rank_index n 99
  rank_index-le n le = ground arith

  nearest_rank-get_or :
      (sorted : List ℤ) (percentile : ℕ)
      → nearest_rank ceil_rank sorted percentile
        ≡ get_or sorted (rank_index (length sorted) percentile) (pos 0)
  unfolding nearest_rank
  nearest_rank-get_or [] percentile = refl
  nearest_rank-get_or (x ∷ xs) percentile = refl

  -- Where sort.Slice sorts the samples of a window and the rank of the 99th percentile is not below
  -- that of the 50th, the snapshot of a window with samples counts them and has two quantiles, each
  -- one of the samples, in order.
  pub snapshot_metric-quantiles :
      (name : String) (updated_at : ℤ) (xs : List ℤ)
      → 1 ≤ length xs
      → Sorts sort_slice xs
      → Monotone ceil_rank (length xs)
      → let s = snapshot_metric sort_slice ceil_rank name xs updated_at in
        (p q : ℤ) × (s.count ≡ length xs)
        × (s.p50_ms ≡ some p)
        × (s.p99_ms ≡ some q)
        × In p xs
        × In q xs
        × (p ≤ℤ q)
  unfolding snapshot_metric
  snapshot_metric-quantiles name updated_at [] le s m = absurd (omega arith)
  snapshot_metric-quantiles name updated_at (x ∷ xs) le s m =
      let sorted = sort_slice (x ∷ xs) in
      let size = s.same_length in
      let fits : (k : ℕ) → rank_index (length sorted) k < length sorted =
        λ k. rank_index-lt (length sorted) k (omega (arith, size)) in
      let at = nearest_rank-get_or sorted in
      let inside : (k : ℕ) → In (nearest_rank ceil_rank sorted k) (x ∷ xs) = λ k.
        s.kept _ (subst (λ v. In v sorted) (sym (at k)) (In-get_or sorted _ (pos 0) (fits k))) in
      (
        nearest_rank ceil_rank sorted 50,
        nearest_rank ceil_rank sorted 99,
        refl,
        refl,
        refl,
        inside 50,
        inside 99,
        rw (at 50, at 99)
            (s.ordered _ _ (rank_index-le (length sorted) (subst (Monotone ceil_rank) (sym size) m))
              (fits 99)),
      )
