-- ===== src/Tests/Loads.antt =====
-- The load generator, at a concrete connection.
use http.Base.{ℕ, [], ◌∷◌, some, false, ◌≡◌, refl, arith, Bytes, codes, Option}
use http.Ascii.{ascii_lower}
use http.Parser.Numbers.{is_digit}
use http.Loadgen.{Setup, Client, ThreadStats, Ended, continues}
use http.Loadgen.Sockets.{received, sent, service, settle}
use http.Loadgen.Accounts.{Accounts}
use http.Loadgen.Serving.{service-Accounts}

abbrev setup : Setup
setup = record { request = codes "GET / HTTP/1.1\r\n\r\n"; deadline = 100; pipeline = 1 }

abbrev no_stats : ThreadStats
no_stats = record {
  requests = 0;
  non_2xx = 0;
  socket_errors = 0;
  reconnects = 0;
  bytes = 0;
  latencies_ns = [];
}

-- A request is in flight, and the clock is read twice more before the deadline.
abbrev client : Client
client = record {
  conn = record { out = codes "GET"; out_off = 3; input = []; sent_at = 5 ∷ [] };
  stats = no_stats;
  clock = 7 ∷ 9 ∷ [];
}

abbrev response : Bytes
response = codes "HTTP/1.1 404 Not Found\r\nContent-Length: 2\r\n\r\nnoHTTP"

abbrev counts_of : Option Ended → ℕ × ℕ × Bytes
counts_of (some (continues x)) = (x.stats.requests, x.stats.non_2xx, x.conn.input)
counts_of _ = (0, 0, [])

response_counted :
    counts_of (
      service setup false
        (received b'H' (codes "TTP/1.1 404 Not Found\r\nContent-Length: 2\r\n\r\nnoHTTP") ∷ [])
        []
        client)
    ≡ (1, 1, codes "HTTP")
unfolding service is_digit ascii_lower
response_counted = refl

service-Accounts_example :
    (e : Ended) × (service setup false (received b'H' (codes "TTP") ∷ []) (sent 1 ∷ []) client
      ≡ some e)
    × ((y : Client) → settle setup e ≡ some y → Accounts setup.pipeline y)
service-Accounts_example =
    service-Accounts setup false (received b'H' (codes "TTP") ∷ []) (sent 1 ∷ []) client
      (record { in_flight = omega arith; counted = refl; offset = omega arith })
