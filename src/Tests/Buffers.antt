-- ===== src/Tests/Buffers.antt =====
-- The counters and the input buffer, run at concrete inputs.
use http.Base.{
  ℕ, ◌+◌, ◌-◌, ◌^◌, ◌≤◌, ◌<◌, List, [], ◌∷◌, ◌≡◌, refl, Bytes, codes, length, true, arith,
}
use http.Metrics.{
  WorkerMetrics, new_metrics, latency_bucket, observe_latency_us, latency_bucket_count,
}
use http.Metrics.Latency.{sum, observe_latency_us-sum}
use http.ByteBuffer.{ByteBuffer, empty_buffer, readable, receive, consume, capacity, prepare}
use http.ByteBuffer.Prepare.{IsValid}
use http.ByteBuffer.Queue.{
  BufferOp, received, used, on_buffer, on_queue, Allowed, on_buffer-on_queue,
}
use http.Server.{DateCache}
use http.Server.Date.{get_date, IsFresh, get_date-format_date}

-- A buffer with 9 bytes of room, 4 of them used up and 2 to read.
abbrev half : ByteBuffer
half = record { memory = codes "GET / HTT"; rpos = 4; wpos = 6 }

-- The bytes slide to the front when the tail is too short.
slides : prepare half 5 ≡ record { memory = codes "/ T / HTT"; rpos = 0; wpos = 2 }
unfolding prepare http.ByteBuffer.readable http.ByteBuffer.write_at
slides = refl

-- An empty buffer takes 4096 bytes.
grows : capacity (prepare empty_buffer 5) ≡ 4096
unfolding prepare http.ByteBuffer.readable http.ByteBuffer.write_at http.ByteBuffer.grow_loop
grows = refl

abbrev ops : List BufferOp
ops = received 5 (codes "abc") ∷ used 4 ∷ received 2 (codes "d") ∷ []

half-IsValid : IsValid half
half-IsValid = record { ordered = omega arith; within = omega arith }

ops-Allowed : Allowed (readable half) ops
unfolding Allowed readable
ops-Allowed = (omega arith, (omega arith, (omega arith, tt)))

on_buffer-on_queue_example :
    IsValid (on_buffer half ops) × (readable (on_buffer half ops) ≡ on_queue (readable half) ops)
on_buffer-on_queue_example = on_buffer-on_queue half ops half-IsValid ops-Allowed

buckets : latency_bucket 1000 ≡ 10
unfolding latency_bucket http.Metrics.bit_width
buckets = refl

observe_latency_us-sum_example :
    (sum (observe_latency_us new_metrics 1000).latency_buckets
      ≡ sum new_metrics.latency_buckets + 1)
    × (length (observe_latency_us new_metrics 1000).latency_buckets ≡ latency_bucket_count)
unfolding sum
observe_latency_us-sum_example =
    observe_latency_us-sum new_metrics 1000 (omega arith) refl (omega arith)

abbrev stamp : ℕ → Bytes
stamp t = t ∷ []

abbrev stale : DateCache
stale = record { cached = http.Base.some 7; shown = 7 ∷ [] }

stale-IsFresh : IsFresh stamp stale
stale-IsFresh t e = cc

get_date-format_date_example :
    ((get_date stamp stale 8).0 ≡ stamp 8) × IsFresh stamp (get_date stamp stale 8).1
get_date-format_date_example = get_date-format_date stamp stale 8 stale-IsFresh
