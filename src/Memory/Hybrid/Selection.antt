-- ===== src/Memory/Hybrid/Selection.antt =====
-- applyMMR: the loops end, and which indices are selected.
pub mod Results
use gobot.Prelude.{
  ℕ, zero, suc, ◌+◌, ◌<◌, ◌≤◌, ◌≡◌, refl, sym, ap, ◌∙◌, subst, ◌⊎◌, inl, inr, Bool, true, false,
  ltb, ◌==◌, ◌||◌, Option, none, some, List, [], ◌∷◌, ◌++◌, append_assoc, append-nil, length,
  length-append, get_elem?, take, drop, In, if◌then◌else◌, arith, Bool-cases, Option-cases,
}
use gobot.Prelude.Int.{ℤ, pos, pos_part, neg_part, leb_ℤ}
use mathlib.Core.List.{Perm}
use mathlib.Core.List.Perm
use gobot.Memory.Hybrid.{
  Float32, VectorResult, Best, remove_at, indices_from, choose, cosine_similarity, max_sim,
  mmr_score, improve, find_best, pick_best, select_loop, collect, clamp_limit, apply_mmr,
}

remove_at-perm : (xs : List ℕ) (i x : ℕ) → get_elem? xs i ≡ some x → Perm (x ∷ remove_at xs i) xs
remove_at-perm [] i x h = absurd (ground arith)
remove_at-perm (y ∷ ys) zero x h =
    let same : y ≡ x = ground arith in subst (λ z. Perm (z ∷ ys) (y ∷ ys)) same (Perm.refl (y ∷ ys))
remove_at-perm (y ∷ ys) (suc i) x h =
    Perm.trans (Perm.swap y x (remove_at ys i)) (Perm.cons y (remove_at-perm ys i x h))

length-remove_at :
    (xs : List ℕ) (i x : ℕ) → get_elem? xs i ≡ some x → suc (length (remove_at xs i)) ≡ length xs
length-remove_at [] i x h = absurd (ground arith)
length-remove_at (y ∷ ys) zero x h = refl
length-remove_at (y ∷ ys) (suc i) x h = ap suc (length-remove_at ys i x h)

remove_at-In : (xs : List ℕ) (i x : ℕ) → In x (remove_at xs i) → In x xs
remove_at-In [] zero x h = h
remove_at-In [] (suc i) x h = h
remove_at-In (y ∷ ys) zero x h = inr h
remove_at-In (y ∷ ys) (suc i) x (inl e) = inl e
remove_at-In (y ∷ ys) (suc i) x (inr h) = inr (remove_at-In ys i x h)

In-snoc : (xs : List ℕ) (x y : ℕ) → In y (xs ++ (x ∷ [])) → In y xs ⊎ (y ≡ x)
In-snoc [] x y (inl e) = inr e
In-snoc [] x y (inr h) = absurd h
In-snoc (z ∷ zs) x y (inl e) = inl (inl e)
In-snoc (z ∷ zs) x y (inr h) = elim (In-snoc zs x y h) [ inl i ↦ inl (inr i) | inr e ↦ inr e ]

get_elem?-In : (xs : List ℕ) (i x : ℕ) → get_elem? xs i ≡ some x → In x xs
get_elem?-In [] i x h = absurd (ground arith)
get_elem?-In (y ∷ ys) zero x h = inl (ground arith)
get_elem?-In (y ∷ ys) (suc i) x h = inr (get_elem?-In ys i x h)

abbrev pub InRange : {F : Type 0} → List (VectorResult F) → List ℕ → Type 0
InRange results xs = (i : ℕ) → In i xs → (r : _) × (get_elem? results i ≡ some r)

abbrev IsAt : {F : Type 0} → List ℕ → Best F → Type 0
IsAt unselected best =
    (idx at : ℕ) → best.chosen ≡ some (idx, at) → get_elem? unselected at ≡ some idx

module _ {F : Type 0} (ops : Float32 F) (results : List (VectorResult F)) (lambda : F) where
  max_sim-some :
      (candidate : VectorResult F) (selected : List ℕ) (m : F)
      → InRange results selected
      → (v : F) × (max_sim ops results candidate selected m ≡ some v)
  unfolding max_sim
  max_sim-some candidate [] m h = (m, refl)
  max_sim-some candidate (s ∷ selected) m h =
      let (r, found) = h s (inl refl) in
      let sim2 = cosine_similarity ops candidate.embedding r.embedding in
      let (v, e) =
        max_sim-some candidate selected (if ops.greater sim2 m then sim2 else m)
          (λ i k. h i (inr k)) in
      (v, rw (max_sim, found) e)

  improve-IsAt :
      (unselected : List ℕ) (idx i : ℕ) (v : F) (best : Best F)
      → get_elem? unselected i ≡ some idx
      → IsAt unselected best
      → IsAt unselected (improve ops idx i v best)
  improve-IsAt unselected idx i v best here h idx' at e =
      elim (Bool-cases (ops.greater v best.score)) [
        | inl better ↦ ground arith
        | inr worse ↦ h idx' at (ground arith)
      ]

  find_best-IsAt :
      (selected unselected : List ℕ) (i : ℕ) (best : Best F) (rest : List ℕ)
      → InRange results selected
      → InRange results rest
      → ((k : ℕ) → get_elem? rest k ≡ get_elem? unselected (i + k))
      → IsAt unselected best
      → (b : Best F) × (find_best ops results lambda selected i best rest ≡ some b)
        × IsAt unselected b
  unfolding find_best
  find_best-IsAt selected unselected i best [] hs hr suffix h = (best, refl, h)
  find_best-IsAt selected unselected i best (idx ∷ rest) hs hr suffix h =
      let (candidate, found) = hr idx (inl refl) in
      let (sim, e) = max_sim-some candidate selected ops.nought hs in
      let best' = improve ops idx i (mmr_score ops lambda candidate.similarity sim) best in
      let here : get_elem? unselected i ≡ some idx =
        ap (λ k. get_elem? unselected k) (omega arith) ∙ sym (suffix 0) in
      let (b, done, at) =
        find_best-IsAt selected unselected (suc i) best' rest hs (λ j k. hr j (inr k))
          (λ k. suffix (suc k) ∙ ap (λ n. get_elem? unselected n) (omega arith))
          (improve-IsAt unselected idx i (mmr_score ops lambda candidate.similarity sim) best here
            h) in
      (b, rw (find_best, found, e) done, at)

  choose-at :
      (u : ℕ) (us : List ℕ) (best : Best F)
      → IsAt (u ∷ us) best
      → (idx : ℕ) × (at : ℕ) × (choose best.chosen (u ∷ us) ≡ some (idx, at))
        × (get_elem? (u ∷ us) at ≡ some idx)
  choose-at u us best h = elim (Option-cases best.chosen) [
    | inl nothing ↦ (u, 0, rw nothing refl, refl)
    | inr ((idx, at), found) ↦ (idx, at, rw found refl, h idx at found)
  ]

  pick_best-at :
      (selected : List ℕ) (u : ℕ) (us : List ℕ)
      → InRange results selected
      → InRange results (u ∷ us)
      → (idx : ℕ) × (at : ℕ) × (pick_best ops results lambda selected (u ∷ us) ≡ some (idx, at))
        × (get_elem? (u ∷ us) at ≡ some idx)
  pick_best-at selected u us hs hu =
      let (b, found, ok_at) =
        find_best-IsAt selected (u ∷ us) 0 (record { chosen = none; score = ops.lowest }) (u ∷ us)
          hs hu (λ k. ap (λ n. get_elem? (u ∷ us) n) (omega arith))
          (λ idx at e. absurd (ground arith)) in
      let (idx, at, chosen, here) = choose-at u us b ok_at in
      (idx, at, rw (pick_best, found) chosen, here)

  -- What the outer loop selects: as many as the limit, each index at most once.
  abbrev pub IsSelection : List ℕ → ℕ → Option (List ℕ) → Type 0
  IsSelection indices limit out =
      (picked : List ℕ) × (rest : List ℕ) × (out ≡ some picked)
      × Perm (picked ++ rest) indices
      × (length picked ≡ limit)
      × InRange results picked

  snoc-InRange :
      (selected : List ℕ) (idx : ℕ) (r : VectorResult F)
      → InRange results selected
      → get_elem? results idx ≡ some r
      → InRange results (selected ++ (idx ∷ []))
  snoc-InRange selected idx r h found i k = elim (In-snoc selected idx i k) [
    | inl old ↦ h i old
    | inr new ↦ (r, ap (λ n. get_elem? results n) new ∙ found)
  ]

  snoc-perm :
      (selected unselected : List ℕ) (idx at : ℕ)
      → get_elem? unselected at ≡ some idx
      → Perm ((selected ++ (idx ∷ [])) ++ remove_at unselected at) (selected ++ unselected)
  snoc-perm selected unselected idx at h =
      subst (λ l. Perm l (selected ++ unselected))
        (sym (append_assoc selected (idx ∷ []) (remove_at unselected at)))
        (Perm.append_left selected (remove_at-perm unselected at idx h))

  pub select_loop-IsSelection :
      (fuel limit : ℕ) (selected unselected : List ℕ)
      → length unselected < fuel
      → length selected ≤ limit
      → limit ≤ length selected + length unselected
      → InRange results selected
      → InRange results unselected
      → IsSelection
          (selected ++ unselected)
          limit
          (select_loop ops fuel results lambda limit selected unselected)
  unfolding select_loop
  select_loop-IsSelection zero limit selected unselected lt le room hs hu = absurd (omega arith)
  select_loop-IsSelection (suc fuel) limit selected [] lt le room hs hu =
      (selected, [], refl, Perm.refl (selected ++ []), omega arith, hs)
  select_loop-IsSelection (suc fuel) limit selected (u ∷ us) lt le room hs hu =
      elim (Bool-cases (ltb (length selected) limit)) [
        | inr full ↦
            (selected, u ∷ us, rw full refl, Perm.refl (selected ++ (u ∷ us)), ground arith, hs)
        | inl more ↦
            let (idx, at, chosen, here) = pick_best-at selected u us hs hu in
            let (r, found) = hu idx (get_elem?-In (u ∷ us) at idx here) in
            let one_less = length-remove_at (u ∷ us) at idx here in
            let one_more = length-append selected (idx ∷ []) in
            let (picked, rest, e, perm, len, range) =
              select_loop-IsSelection fuel limit (selected ++ (idx ∷ [])) (remove_at (u ∷ us) at)
                (omega arith) (ground arith) (omega arith) (snoc-InRange selected idx r hs found)
                (λ i k. hu i (remove_at-In (u ∷ us) at i k)) in
            (
              picked,
              rest,
              rw (more, chosen) e,
              Perm.trans perm (snoc-perm selected (u ∷ us) idx at here),
              len,
              range,
            )
      ]
