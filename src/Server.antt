-- ===== src/Server.antt =====
-- The state of a worker and of its connections: src/server/server.hpp and src/server/server.cpp.
pub mod Date
pub mod Reading
pub mod Producing
pub mod Writing
pub mod Sharing
pub mod Steps
pub mod Processing
pub mod Driving
pub mod Timers
pub mod Events
use http.Base.{
  ℕ, zero, suc, ◌+◌, ◌-◌, ◌*◌, ◌/◌, ◌%◌, ◌^◌, Bool, true, false, not, ◌&&◌, ◌||◌, List, [], ◌∷◌,
  ◌++◌, Option, none, some, Bytes, ltb, ◌==◌, if◌then◌else◌, length, drop, min, max,
}
use http.Headers.{Headers}
use http.Request.{ParserLimits}
use http.Parser.{RequestParser, new_parser}
use http.ByteBuffer.{ByteBuffer, empty_buffer}
use http.Router.{Route}
use http.Metrics.{WorkerMetrics, new_metrics}

abbrev pub read_size : ℕ
read_size = 16 * 1024

abbrev pub out_high_water : ℕ
out_high_water = 256 * 1024

abbrev pub producer_low_water : ℕ
producer_low_water = 64 * 1024

abbrev pub sendfile_max : ℕ
sendfile_max = 2 ^ 20

abbrev pub accept_batch : ℕ
accept_batch = 64

-- `errno`, as far as the code tells its values apart.
pub data Errno : Type 0 where
  interrupted would_block other_error : Errno

-- What `recv` returns: bytes, none of them at the end of the stream, or an error.
pub data RecvResult : Type 0 where
  received : Bytes → RecvResult
  recv_failed : Errno → RecvResult

-- What `send` and `sendfile` return. The kernel has room for so many bytes, and takes no more than it
-- is given; `sendfile` gives 0 at the end of the file.
pub data SendResult : Type 0 where
  room_for : ℕ → SendResult
  send_failed : Errno → SendResult

-- A byte on the wire: one of `out`, or the one at an offset of an open file.
pub data Item : Type 0 where
  byte : ℕ → Item
  file_byte : ℕ → ℕ → Item

-- The kernel's side of a connection: what the next calls return, and what has been sent. Where an
-- answer is lacking the call would block.
pub record Socket : Type 0 where
  pub recvs : List RecvResult
  pub sends : List SendResult
  pub sendfiles : List SendResult
  pub wire : List Item

-- `Connection`. An open file is its descriptor, and `P` the type of body producers.
pub record Connection {ℓ} (P : Type ℓ) : Type ℓ where
  pub socket : Socket
  pub input : ByteBuffer
  pub parser : RequestParser
  pub out : Bytes
  pub out_off : ℕ
  pub file : Option ℕ
  pub file_off : ℕ
  pub file_left : ℕ
  pub producer : Option P
  pub trailers : Headers
  pub chunked : Bool
  pub stream_sized : Bool
  pub stream_left : ℕ
  pub can_read : Bool
  pub can_write : Bool
  pub peer_closed : Bool
  pub close_after_write : Bool
  pub continue_sent : Bool
  pub last_active_us : ℕ
  pub request_start_us : ℕ

abbrev pub new_connection {ℓ} : {P : Type ℓ} → Socket → ParserLimits → ℕ → Connection P
new_connection socket limits now = record {
  socket = socket;
  input = empty_buffer;
  parser = new_parser limits;
  out = [];
  out_off = 0;
  file = none;
  file_off = 0;
  file_left = 0;
  producer = none;
  trailers = [];
  chunked = false;
  stream_sized = false;
  stream_left = 0;
  can_read = true;
  can_write = true;
  peer_closed = false;
  close_after_write = false;
  continue_sent = false;
  last_active_us = now;
  request_start_us = 0;
}

abbrev pub is_some {ℓ} : {A : Type ℓ} → Option A → Bool
is_some none = false
is_some (some a) = true

module _ {ℓ} {P : Type ℓ} where
  abbrev pub out_pending : Connection P → ℕ
  out_pending c = length c.out - c.out_off

  abbrev pub body_source_active : Connection P → Bool
  body_source_active c = is_some c.file || is_some c.producer

  abbrev pub has_output : Connection P → Bool
  has_output c = ltb 0 (out_pending c) || body_source_active c

-- What a call of a body producer does: it appends a piece, sets trailers, and tells whether there is
-- more, or it throws.
pub data Pulled {ℓ} (P : Type ℓ) : Type ℓ where
  pulled : Bytes → Headers → Bool → P → Pulled P
  pull_thrown : Pulled P

-- `DateCache`; `none` is a time that is not yet known.
pub record DateCache : Type 0 where
  pub cached : Option ℕ
  pub shown : Bytes

-- The members of `Server::Worker` that its loop changes. `readings` counts the readings of the clocks.
pub record Worker {ℓ} (P : Type ℓ) : Type ℓ where
  pub listening : Bool
  pub conns : List (ℕ × Connection P)
  pub metrics : WorkerMetrics
  pub date : DateCache
  pub now_us : ℕ
  pub draining : Bool
  pub drain_deadline_us : ℕ
  pub readings : ℕ

-- `ServerConfig`, as far as a worker reads it; times in milliseconds.
pub record ServerConfig : Type 0 where
  pub idle_timeout : ℕ
  pub header_timeout : ℕ
  pub shutdown_grace : ℕ
  pub limits : ParserLimits

-- What a worker is given: the configuration, the routes, how a producer is called, the text of a date
-- and what each reading of the clocks gives.
pub record Env {ℓ} (P : Type ℓ) : Type ℓ where
  pub cfg : ServerConfig
  pub routes : List (Route P)
  pub pull : P → Headers → Pulled P
  pub format_date : ℕ → Bytes
  pub wall : ℕ → ℕ
  pub mono_us : ℕ → ℕ

abbrev pub to_us : ℕ → ℕ
to_us ms = (ms * 1000) % 2 ^ 64

-- `max_in_buffer_`.
abbrev pub max_in_buffer {ℓ} : {P : Type ℓ} → Env P → ℕ
max_in_buffer env =
    max (64 * 1024) ((env.cfg.limits.max_request_line + env.cfg.limits.max_header_bytes) % 2 ^ 64)

-- `tick_us_`.
abbrev pub tick_us : ServerConfig → ℕ
tick_us cfg = max 10000 (min 1000000 (min (to_us cfg.idle_timeout) (to_us cfg.header_timeout) / 4))

-- The members of a worker that has just been made.
abbrev pub new_worker {ℓ} : {P : Type ℓ} → ℕ → Worker P
new_worker now = record {
  listening = true;
  conns = [];
  metrics = new_metrics;
  date = record { cached = none; shown = [] };
  now_us = now;
  draining = false;
  drain_deadline_us = 0;
  readings = 0;
}

-- A worker at work on a connection, and the flag `progress`.
pub record Turn {ℓ} (P : Type ℓ) : Type ℓ where
  pub worker : Worker P
  pub conn : Connection P
  pub progress : Bool
