-- ===== src/Observability/Latency/Recorded.antt =====
-- Latency: any sequence of calls against the windows it leaves.
use gobot.Prelude.{
  ℕ, ◌-◌, ◌≤◌, ◌≡◌, refl, ap, sym, subst, inl, inr, true, false, Option, none, some, List, [], ◌∷◌,
  ◌++◌, String, str_eq, eq_iff, last_of, append-nil, append_assoc, drop-empty, if◌then◌else◌, arith,
  Bool-cases, Option-cases,
}
use gobot.Prelude.Int.{ℤ}
use gobot.Observability.Latency.{
  LatencyWindow, LatencyRecorder, record_sample, record_at, sample_of, new_latency_recorder,
  put_window, is_member, latency_metric_names,
}
use gobot.Observability.Latency.Window.{Rotated, in_order, in_order-Rotated, record_sample-Rotated}

-- A call of recordAt.
pub record Recording : Type 0 where
  pub metric : String
  pub duration : ℤ
  pub at : ℤ

unfoldable pub record_all : List Recording → Option LatencyRecorder → Option LatencyRecorder
record_all [] r = r
record_all (c ∷ cs) r = record_all cs (record_at c.metric c.duration c.at r).1

-- The samples that the calls give to one metric.
unfoldable pub samples_for : String → List Recording → List ℤ
samples_for name [] = []
samples_for name (c ∷ cs) =
    if str_eq name c.metric then sample_of c.duration ∷ samples_for name cs else samples_for name cs

-- The recorder has a window for the metric, which holds the newest of the samples.
abbrev pub Holds : ℕ → String → List ℤ → Option LatencyRecorder → Type 0
Holds capacity name xs o =
    (r : LatencyRecorder) × (w : LatencyWindow) × (o ≡ some r)
    × (r.capacity ≡ capacity)
    × (r.windows name ≡ some w)
    × Rotated capacity w (last_of capacity xs)

abbrev grow : String → Recording → List ℤ → List ℤ
grow name c xs = if str_eq name c.metric then xs ++ sample_of c.duration ∷ [] else xs

record_at-known :
    (metric : String) (duration at : ℤ) (r : LatencyRecorder) (w : LatencyWindow)
    → r.windows metric ≡ some w
    → record_at metric duration at (some r)
      ≡ (true, some (put_window metric (record_sample r.capacity (sample_of duration) at w) r))
unfolding record_at
record_at-known metric duration at r w h = rw h refl

record_at-unknown :
    (metric : String) (duration at : ℤ) (r : LatencyRecorder)
    → r.windows metric ≡ none
    → record_at metric duration at (some r) ≡ (false, some r)
unfolding record_at
record_at-unknown metric duration at r h = rw h refl

record_at-Holds :
    (capacity : ℕ) (name : String) (xs : List ℤ) (c : Recording) (r : LatencyRecorder)
    (w : LatencyWindow)
    → 1 ≤ capacity
    → r.capacity ≡ capacity
    → r.windows name ≡ some w
    → Rotated capacity w (last_of capacity xs)
    → Holds capacity name (grow name c xs) (record_at c.metric c.duration c.at (some r)).1
record_at-Holds capacity name xs c r w le size has q = elim (Bool-cases (str_eq name c.metric)) [
  | inl same ↦
      let w' = record_sample r.capacity (sample_of c.duration) c.at w in
      let here : c.metric ≡ name = ground (arith, eq_iff name c.metric) in
      let known = record_at-known c.metric c.duration c.at r w (rw here has) in
      (
        put_window c.metric w' r,
        w',
        ap (λ p. p.1) known,
        size,
        rw same refl,
        rw (same, size) (record_sample-Rotated capacity (sample_of c.duration) c.at w xs le q),
      )
  | inr other ↦ elim (Option-cases (r.windows c.metric)) [
    | inl unknown ↦ (
      r,
      w,
      ap (λ p. p.1) (record_at-unknown c.metric c.duration c.at r unknown),
      size,
      has,
      rw other q,
    )
    | inr (v, known) ↦ (
      put_window c.metric (record_sample r.capacity (sample_of c.duration) c.at v) r,
      w,
      ap (λ p. p.1) (record_at-known c.metric c.duration c.at r v known),
      size,
      rw other has,
      rw other q,
    )
  ]
]

-- Recording one call after another, from a recorder that already holds `xs`.
record_all-Holds :
    (capacity : ℕ) (name : String) (xs : List ℤ) (cs : List Recording) (o : Option LatencyRecorder)
    → 1 ≤ capacity
    → Holds capacity name xs o
    → Holds capacity name (xs ++ samples_for name cs) (record_all cs o)
unfolding record_all samples_for
record_all-Holds capacity name xs [] o le h =
    subst (λ ys. Holds capacity name ys o) (sym (append-nil xs)) h
record_all-Holds capacity name xs (c ∷ cs) o le (r, w, e, size, has, q) =
    let one = record_at-Holds capacity name xs c r w le size has q in
    let o' = (record_at c.metric c.duration c.at (some r)).1 in
    let rest = record_all-Holds capacity name (grow name c xs) cs o' le one in
    let same : grow name c xs ++ samples_for name cs ≡ xs ++ samples_for name (c ∷ cs) =
      elim (Bool-cases (str_eq name c.metric)) [
        | inl here ↦ rw here (append_assoc xs (sample_of c.duration ∷ []) (samples_for name cs))
        | inr other ↦ rw other refl
      ] in
    rw e (subst (λ ys. Holds capacity name ys (record_all cs o')) same rest)

new_latency_recorder-Holds :
    (zero_time size : ℤ) (name : String)
    → is_member name latency_metric_names ≡ true
    → let r = new_latency_recorder zero_time size in
      (1 ≤ r.capacity) × Holds r.capacity name [] (some r)
unfolding new_latency_recorder last_of
new_latency_recorder-Holds zero_time size name known =
    let r = new_latency_recorder zero_time size in
    let positive : 1 ≤ r.capacity = ground arith in
    (
      positive,
      (
        r,
        record { samples = []; next = 0; updated_at = zero_time },
        refl,
        refl,
        rw known refl,
        record {
          newer = [];
          older = [];
          stored = refl;
          turn = refl;
          order = drop-empty (0 - r.capacity);
          fits = omega arith;
          room = λ lt. refl;
          ready = λ le. omega (arith, positive);
        },
      ),
    )

-- A new recorder and any sequence of calls: for each of the recorder's metrics, the window read
-- from its oldest place on holds exactly the newest samples of that metric, in the order of the
-- calls, as many as the capacity admits.
pub record_all-in_order :
    (zero_time size : ℤ) (cs : List Recording) (name : String)
    → is_member name latency_metric_names ≡ true
    → let r = new_latency_recorder zero_time size in
      (r' : LatencyRecorder) × (w : LatencyWindow) × (record_all cs (some r) ≡ some r')
      × (r'.windows name ≡ some w)
      × (in_order w ≡ last_of r.capacity (samples_for name cs))
record_all-in_order zero_time size cs name known =
    let r = new_latency_recorder zero_time size in
    let (le, start) = new_latency_recorder-Holds zero_time size name known in
    let (r', w, e, _, has, q) = record_all-Holds r.capacity name [] cs (some r) le start in
    (r', w, e, has, in_order-Rotated r.capacity w _ q)
