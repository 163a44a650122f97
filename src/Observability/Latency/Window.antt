-- ===== src/Observability/Latency/Window.antt =====
-- Latency: a window against the list of the samples recorded for its metric.
use native.Mathlib.Nat.{mod-eq_of_lt, mod_self}
use gobot.Prelude.{
  ℕ, suc, ◌+◌, ◌%◌, ◌≤◌, ◌<◌, ◌≡◌, refl, ap, sym, ◌∙◌, subst, inl, inr, List, [], ◌∷◌, ◌++◌, ltb,
  length, set, take, drop, last_of, length-last_of, last_of-room, last_of-full, length-append,
  set-append, drop-length_append, take-length_append, append-nil, append_assoc, arith, Bool-cases,
}
use gobot.Prelude.Int.{ℤ}
use gobot.Observability.Latency.{LatencyWindow, record_sample}

-- The samples of a window, the oldest first.
unfoldable pub in_order : LatencyWindow → List ℤ
in_order w = drop w.next w.samples ++ take w.next w.samples

-- `newer` ++ `older` are the stored samples, and `recorded` are they in the order of recording.
pub record Rotated (capacity : ℕ) (w : LatencyWindow) (recorded : List ℤ) : Type 0 where
  pub newer : List ℤ
  pub older : List ℤ
  pub stored : w.samples ≡ newer ++ older
  pub turn : w.next ≡ length newer
  pub order : recorded ≡ older ++ newer
  pub fits : length w.samples ≤ capacity
  pub room : length w.samples < capacity → newer ≡ []
  pub ready : capacity ≤ length w.samples → 1 ≤ length older

pub in_order-Rotated :
    (capacity : ℕ) (w : LatencyWindow) (q : List ℤ) → Rotated capacity w q → in_order w ≡ q
unfolding in_order
in_order-Rotated capacity w q r =
    rw
      (
        r.stored,
        r.turn,
        r.order,
        drop-length_append r.newer r.older,
        take-length_append r.newer r.older,
      )
      refl

appended :
    (capacity : ℕ) (ms t : ℤ) (w : LatencyWindow) (q : List ℤ)
    → length w.samples < capacity
    → Rotated capacity w q
    → Rotated capacity (record_sample capacity ms t w) (q ++ ms ∷ [])
unfolding record_sample
appended capacity ms t w q lt r =
    let none_newer = r.room lt in
    let w' : LatencyWindow = record {
      samples = w.samples ++ ms ∷ [];
      next = w.next;
      updated_at = t;
    } in
    let same : record_sample capacity ms t w ≡ w' = ground arith in
    let old : w.samples ≡ r.older = rw (r.stored, none_newer) refl in
    let all : q ≡ r.older = r.order ∙ ap (λ n. r.older ++ n) none_newer ∙ append-nil r.older in
    let longer = length-append w.samples (ms ∷ []) in
    subst (λ v. Rotated capacity v (q ++ ms ∷ [])) (sym same)
      (record {
        newer = [];
        older = r.older ++ ms ∷ [];
        stored = ap (λ s. s ++ ms ∷ []) old;
        turn = r.turn ∙ ap length none_newer;
        order = ap (λ s. s ++ ms ∷ []) all ∙ sym (append-nil (r.older ++ ms ∷ []));
        fits = omega (arith, longer);
        room = λ lt'. refl;
        ready = λ le. omega (arith, longer, ap length old, length-append r.older (ms ∷ []));
      })

overwritten :
    (capacity : ℕ) (ms t : ℤ) (newer : List ℤ) (y : ℤ) (ys : List ℤ)
    → length newer + suc (length ys) ≡ capacity
    → Rotated capacity
        (record {
          samples = newer ++ ms ∷ ys;
          next = (length newer + 1) % capacity;
          updated_at = t;
        })
        ((ys ++ newer) ++ ms ∷ [])
overwritten capacity ms t newer y [] e =
    let longer = length-append newer (ms ∷ []) in
    let turn : (length newer + 1) % capacity ≡ 0 =
      ap (λ n. n % capacity) (omega arith) ∙ mod_self capacity in
    record {
      newer = [];
      older = newer ++ ms ∷ [];
      stored = refl;
      turn = turn;
      order = sym (append-nil (newer ++ ms ∷ []));
      fits = omega (arith, longer);
      room = λ lt. refl;
      ready = λ le. omega (arith, longer);
    }
overwritten capacity ms t newer y (z ∷ zs) e =
    let longer = length-append newer (ms ∷ z ∷ zs) in
    let turn : (length newer + 1) % capacity ≡ length newer + 1 = mod-eq_of_lt (omega arith) in
    record {
      newer = newer ++ ms ∷ [];
      older = z ∷ zs;
      stored = sym (append_assoc newer (ms ∷ []) (z ∷ zs));
      turn = omega (arith, turn, length-append newer (ms ∷ []));
      order = append_assoc (z ∷ zs) newer (ms ∷ []);
      fits = omega (arith, longer);
      room = λ lt. absurd (omega (arith, longer));
      ready = λ le. omega arith;
    }

full :
    (capacity : ℕ) (ms t : ℤ) (w : LatencyWindow) (newer older : List ℤ)
    → w.samples ≡ newer ++ older
    → w.next ≡ length newer
    → length w.samples ≡ capacity
    → 1 ≤ length older
    → Rotated capacity (record_sample capacity ms t w) (drop 1 (older ++ newer) ++ ms ∷ [])
unfolding record_sample
full capacity ms t w newer [] stored turn size le = absurd (omega arith)
full capacity ms t w newer (y ∷ ys) stored turn size le =
    let w' : LatencyWindow = record {
      samples = newer ++ ms ∷ ys;
      next = (length newer + 1) % capacity;
      updated_at = t;
    } in
    let written : set w.samples w.next ms ≡ newer ++ ms ∷ ys =
      rw (stored, turn) (set-append newer y ms ys) in
    let same : record_sample capacity ms t w ≡ w' = ground (arith, written) in
    subst (λ v. Rotated capacity v ((ys ++ newer) ++ ms ∷ [])) (sym same)
      (overwritten capacity ms t newer y ys
        (omega (arith, ap length stored, length-append newer (y ∷ ys))))

pub record_sample-Rotated :
    (capacity : ℕ) (ms t : ℤ) (w : LatencyWindow) (xs : List ℤ)
    → 1 ≤ capacity
    → Rotated capacity w (last_of capacity xs)
    → Rotated capacity (record_sample capacity ms t w) (last_of capacity (xs ++ ms ∷ []))
record_sample-Rotated capacity ms t w xs le r =
    let kept = length-last_of capacity xs in
    let size = ap length r.order ∙ length-append r.older r.newer in
    let size' = ap length r.stored ∙ length-append r.newer r.older in
    elim (Bool-cases (ltb (length w.samples) capacity)) [
      | inl room ↦
          subst (Rotated capacity (record_sample capacity ms t w))
            (sym (last_of-room capacity ms xs (ground (arith, kept, size, size'))))
            (appended capacity ms t w (last_of capacity xs) (ground arith) r)
      | inr none_left ↦
          subst (Rotated capacity (record_sample capacity ms t w))
            (ap (λ q. drop 1 q ++ ms ∷ []) (sym r.order)
              ∙ sym (last_of-full capacity ms xs le (ground (arith, kept, size, size'))))
            (full capacity ms t w r.newer r.older r.stored r.turn
              (let fits = r.fits in ground arith) (r.ready (ground arith)))
    ]
