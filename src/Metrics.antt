-- ===== src/Metrics.antt =====
-- The counters of a worker: src/obs/metrics.hpp.
pub mod Latency
use http.Base.{
  ℕ, zero, suc, ◌+◌, ◌-◌, ◌*◌, ◌/◌, ◌%◌, ◌^◌, List, [], ◌∷◌, ltb, leb, ◌==◌, if◌then◌else◌,
  replicate,
}

-- `std::atomic<std::uint64_t>` with one writer.
unfoldable pub bump : ℕ → ℕ → ℕ
bump counter n = (counter + n) % 2 ^ 64

-- A bump of one element of an array; the index is in range.
unfoldable pub bump_at : List ℕ → ℕ → List ℕ
unfolding bump
bump_at [] i = []
bump_at (c ∷ cs) zero = bump c 1 ∷ cs
bump_at (c ∷ cs) (suc i) = c ∷ bump_at cs i

abbrev pub latency_bucket_count : ℕ
latency_bucket_count = 24

pub record WorkerMetrics : Type 0 where
  pub connections_accepted : ℕ
  pub connections_closed : ℕ
  pub connections_timed_out : ℕ
  pub accept_errors : ℕ
  pub requests : ℕ
  pub parse_errors : ℕ
  pub responses_by_class : List ℕ
  pub bytes_received : ℕ
  pub bytes_sent : ℕ
  pub bytes_sendfile : ℕ
  pub loop_wakeups : ℕ
  pub loop_events : ℕ
  pub latency_buckets : List ℕ
  pub latency_sum_us : ℕ

-- `WorkerMetrics{}`.
abbrev pub new_metrics : WorkerMetrics
new_metrics = record {
  connections_accepted = 0;
  connections_closed = 0;
  connections_timed_out = 0;
  accept_errors = 0;
  requests = 0;
  parse_errors = 0;
  responses_by_class = replicate 6 0;
  bytes_received = 0;
  bytes_sent = 0;
  bytes_sendfile = 0;
  loop_wakeups = 0;
  loop_events = 0;
  latency_buckets = replicate latency_bucket_count 0;
  latency_sum_us = 0;
}

-- The number of binary digits of a number below 2 to the fuel: 64 less `__builtin_clzll`.
unfoldable pub bit_width : ℕ → ℕ → ℕ
bit_width zero us = 0
bit_width (suc fuel) us = elim us [ zero ↦ 0 | suc n ↦ suc (bit_width fuel (suc n / 2)) ]

-- The bucket of a latency.
unfoldable pub latency_bucket : ℕ → ℕ
latency_bucket us =
    let idx = if us == 0 then 0 else bit_width 64 us in
    if leb latency_bucket_count idx then latency_bucket_count - 1 else idx

unfoldable pub observe_latency_us : WorkerMetrics → ℕ → WorkerMetrics
unfolding bump bump_at latency_bucket
observe_latency_us m us = record m {
  latency_buckets = bump_at m.latency_buckets (latency_bucket us);
  latency_sum_us = bump m.latency_sum_us us;
}
