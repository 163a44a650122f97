-- ===== src/Observability/Latency.antt =====
-- internal/observability/latency.go: bounded windows of latency samples and their quantiles. A
-- duration is an integer of nanoseconds, a time an integer. The order of sort.Slice and the
-- floating-point rank are parameters.
pub mod Window
pub mod Recorded
pub mod Quantiles
use gobot.Prelude.{
  ℕ, zero, suc, ◌+◌, ◌-◌, ◌/◌, ◌%◌, Bool, true, false, ◌||◌, Option, none, some, List, [], ◌∷◌,
  ◌++◌, String, str_eq, ltb, length, set, get_or, if◌then◌else◌,
}
use gobot.Prelude.Int.{ℤ, pos, negsuc, pos_part, ltb_ℤ, leb_ℤ}

pub record LatencyWindow : Type 0 where
  pub samples : List ℤ
  pub next : ℕ
  pub updated_at : ℤ

-- `capacity` is positive once the recorder is made.
pub record LatencyRecorder : Type 0 where
  pub capacity : ℕ
  pub windows : String → Option LatencyWindow

pub record LatencyMetricSnapshot : Type 0 where
  pub name : String
  pub count : ℕ
  pub p50_ms : Option ℤ
  pub p99_ms : Option ℤ
  pub updated_at : ℤ

pub record LatencySnapshot : Type 0 where
  pub version : ℕ
  pub generated_at : ℤ
  pub metrics : List LatencyMetricSnapshot

unfoldable pub latency_metric_names : List String
latency_metric_names = "agent.dispatch" ∷ "telegram.dispatch" ∷ "tool.execute" ∷ []

abbrev pub default_latency_capacity : ℕ
default_latency_capacity = 2048

unfoldable pub is_member : String → List String → Bool
is_member name [] = false
is_member name (n ∷ ns) = if str_eq name n then true else is_member name ns

-- `zero_time` is the zero value of time.Time.
unfoldable pub new_latency_recorder : ℤ → ℤ → LatencyRecorder
new_latency_recorder zero_time capacity = record {
  capacity = if leb_ℤ capacity (pos 0) then default_latency_capacity else pos_part capacity;
  windows = λ name.
      if is_member name latency_metric_names
      then some (record { samples = []; next = 0; updated_at = zero_time })
      else none;
}

-- time.Duration.Milliseconds: the quotient is rounded toward 0.
unfoldable pub milliseconds : ℤ → ℤ
milliseconds (pos n) = pos (n / 1000000)
milliseconds (negsuc n) = elim (suc n / 1000000) [ zero ↦ pos 0 | suc k ↦ negsuc k ]

unfoldable pub sample_of : ℤ → ℤ
unfolding milliseconds
sample_of duration = let ms = milliseconds duration in if ltb_ℤ ms (pos 0) then pos 0 else ms

unfoldable pub record_sample : ℕ → ℤ → ℤ → LatencyWindow → LatencyWindow
record_sample capacity ms updated_at w =
    if ltb (length w.samples) capacity
    then record { samples = w.samples ++ ms ∷ []; next = w.next; updated_at = updated_at }
    else record {
      samples = set w.samples w.next ms;
      next = (w.next + 1) % capacity;
      updated_at = updated_at;
    }

abbrev pub put_window : String → LatencyWindow → LatencyRecorder → LatencyRecorder
put_window metric w r = record r {
  windows = λ name. if str_eq name metric then some w else r.windows name;
}

-- No recorder is the nil receiver.
unfoldable pub record_at : String → ℤ → ℤ → Option LatencyRecorder → Bool × Option LatencyRecorder
unfolding sample_of record_sample
record_at metric duration updated_at none = (false, none)
record_at metric duration updated_at (some r) = elim (r.windows metric) [
  | none ↦ (false, some r)
  | some w ↦
      let w' = record_sample r.capacity (sample_of duration) updated_at w in
      (true, some (put_window metric w' r))
]

unfoldable pub empty_metrics : ℤ → List String → List LatencyMetricSnapshot
empty_metrics zero_time [] = []
empty_metrics zero_time (name ∷ names) =
    record { name = name; count = 0; p50_ms = none; p99_ms = none; updated_at = zero_time }
    ∷ empty_metrics zero_time names

module _ (ceil_rank : ℕ → ℕ → ℤ) where
  -- `ceil_rank percentile len` is the rounded product before its bounds.
  unfoldable pub nearest_rank : List ℤ → ℕ → ℤ
  nearest_rank [] percentile = pos 0
  nearest_rank (x ∷ xs) percentile =
      let sorted = x ∷ xs in
      let rank = ceil_rank percentile (length sorted) in
      let low = if ltb_ℤ rank (pos 1) then 1 else pos_part rank in
      let high = if ltb (length sorted) low then length sorted else low in
      get_or sorted (high - 1) (pos 0)

module _ (sort_slice : List ℤ → List ℤ) (ceil_rank : ℕ → ℕ → ℤ) where
  unfoldable pub snapshot_metric : String → List ℤ → ℤ → LatencyMetricSnapshot
  unfolding nearest_rank
  snapshot_metric name [] updated_at = record {
    name = name;
    count = 0;
    p50_ms = none;
    p99_ms = none;
    updated_at = updated_at;
  }
  snapshot_metric name (x ∷ xs) updated_at =
      let sorted = sort_slice (x ∷ xs) in
      record {
        name = name;
        count = length (x ∷ xs);
        p50_ms = some (nearest_rank ceil_rank sorted 50);
        p99_ms = some (nearest_rank ceil_rank sorted 99);
        updated_at = updated_at;
      }

  -- The metrics of a list of names. The recorder has a window for each of its names; where there
  -- were none, the code would fault, which is `none` here.
  unfoldable pub snapshot_all : LatencyRecorder → List String → Option (List LatencyMetricSnapshot)
  unfolding snapshot_metric
  snapshot_all r [] = some []
  snapshot_all r (name ∷ names) =
      let rest = snapshot_all r names in
      elim (r.windows name) [
        | none ↦ none
        | some w ↦ elim rest [
          | none ↦ none
          | some ms ↦ some (snapshot_metric name w.samples w.updated_at ∷ ms)
        ]
      ]

  unfoldable pub snapshot : ℤ → ℤ → Option LatencyRecorder → Option LatencySnapshot
  unfolding snapshot_all empty_metrics
  snapshot zero_time now none = some (record {
    version = 1;
    generated_at = now;
    metrics = empty_metrics zero_time latency_metric_names;
  })
  snapshot zero_time now (some r) = elim (snapshot_all r latency_metric_names) [
    | none ↦ none
    | some ms ↦ some (record { version = 1; generated_at = now; metrics = ms })
  ]
