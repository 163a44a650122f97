-- ===== src/Tests/Metrics.antt =====
-- Runs of internal/observability/latency.go: a window that has come round.
use gobot.Prelude.{ℕ, ◌≡◌, refl, some, List, [], ◌∷◌, last_of}
use gobot.Prelude.Int.{pos}
use gobot.Observability.Latency.{
  LatencyWindow, LatencyRecorder, new_latency_recorder, is_member, latency_metric_names,
}
use gobot.Observability.Latency.Recorded.{Recording, record_all, samples_for, record_all-in_order}
use gobot.Observability.Latency.Window.{in_order}

abbrev call : ℕ → Recording
call ms = record { metric = "tool.execute"; duration = pos ms; at = pos 0 }

abbrev calls : List Recording
calls = call 3000000 ∷ call 5000000 ∷ call 4000000 ∷ []

record_all-in_order_example :
    let r = new_latency_recorder (pos 0) (pos 2) in
    (r' : LatencyRecorder) × (w : LatencyWindow) × (record_all calls (some r) ≡ some r')
    × (r'.windows "tool.execute" ≡ some w)
    × (in_order w ≡ last_of r.capacity (samples_for "tool.execute" calls))
unfolding is_member latency_metric_names
record_all-in_order_example = record_all-in_order (pos 0) (pos 2) calls "tool.execute" refl
