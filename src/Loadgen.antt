-- ===== src/Loadgen.antt =====
-- tools/loadgen.cpp: a client's connection and the worker that drives it. What the system calls
-- return and the readings of the clock are given in lists.
pub mod Accounts
pub mod Sockets
pub mod Serving
use http.Base.{
  ℕ, zero, suc, ◌+◌, ◌-◌, ◌/◌, ◌%◌, ◌^◌, Bool, true, false, not, ◌&&◌, ◌||◌, List, [], ◌∷◌, ◌++◌,
  Option, none, some, Bytes, codes, ltb, leb, ◌==◌, if◌then◌else◌, length, take, drop, find_str,
  min,
}
use http.Ascii.{ascii_lower, is_empty}
use http.App.{leading_digits}
use http.CommandLine.{skip_spaces, skip_sign, negate_if}
use http.Metrics.{bump}
use http.Parser.Feed.{crlf}

pub record ThreadStats : Type 0 where
  pub requests : ℕ
  pub non_2xx : ℕ
  pub socket_errors : ℕ
  pub reconnects : ℕ
  pub bytes : ℕ
  pub latencies_ns : List ℕ

unfoldable pub iequals_prefix : Bytes → Bytes → Bool
iequals_prefix s [] = true
iequals_prefix [] (p ∷ ps) = false
iequals_prefix (c ∷ s) (p ∷ ps) = ascii_lower c == ascii_lower p && iequals_prefix s ps

-- `Conn`, without its descriptor.
pub record Conn : Type 0 where
  pub out : Bytes
  pub out_off : ℕ
  pub input : Bytes
  pub sent_at : List ℕ

abbrev pub new_conn : Conn
new_conn = record { out = []; out_off = 0; input = []; sent_at = [] }

-- What a worker does not change: its request, its deadline and the depth of the pipeline.
pub record Setup : Type 0 where
  pub request : Bytes
  pub deadline : ℕ
  pub pipeline : ℕ

-- A connection, the counters of its worker, and the readings of the clock before the deadline that
-- are still to come.
pub record Client : Type 0 where
  pub conn : Conn
  pub stats : ThreadStats
  pub clock : List ℕ

-- A reading of the clock; once there is none left the deadline has come.
abbrev pub read_clock : ℕ → List ℕ → ℕ × List ℕ
read_clock deadline [] = (deadline, [])
read_clock deadline (t ∷ ts) = (t, ts)

unfoldable pub enqueue : Setup → Client → Client
enqueue setup x =
    let (now, clock) = read_clock setup.deadline x.clock in
    record x {
      conn = record x.conn {
        out = x.conn.out ++ setup.request;
        sent_at = x.conn.sent_at ++ (now ∷ []);
      };
      clock = clock;
    }

-- `std::atoi`, as its sign and number.
unfoldable pub atoi : Bytes → Bool × ℕ
unfolding skip_spaces skip_sign leading_digits
atoi s = let (minus, digits) = skip_sign (skip_spaces s) in (minus, (leading_digits digits 0).0)

abbrev pub is_2xx : Bool × ℕ → Bool
is_2xx (minus, n) = not minus && leb 200 n && ltb n 300

-- `std::strtoull` in base 10; a number that is too large is the largest.
unfoldable pub strtoull : Bytes → ℕ
unfolding skip_spaces skip_sign leading_digits negate_if
strtoull s =
    let (minus, digits) = skip_sign (skip_spaces s) in
    let v = (leading_digits digits 0).0 in if ltb v (2 ^ 64) then negate_if minus v else 2 ^ 64 - 1

-- `rest.substr(15, rest.find("\r\n") - 15)`.
unfoldable pub length_value : Bytes → Bytes
unfolding find_str
length_value rest = elim (find_str crlf rest) [
  | none ↦ drop 15 rest
  | some i ↦ take (i - 15) (drop 15 rest)
]

-- A line of the head; the last Content-Length counts.
unfoldable pub read_line : Bytes → Option ℕ → Option ℕ
unfolding iequals_prefix length_value strtoull
read_line rest found =
    if iequals_prefix rest (codes "content-length:")
    then some (strtoull (length_value rest))
    else found

-- The loop over the lines of the head behind the first, from what is left of it on. Each round drops
-- two bytes.
unfoldable pub head_loop : ℕ → Bytes → Option ℕ → Option ℕ
unfolding read_line find_str
head_loop zero rest found = found
head_loop (suc fuel) rest found = elim (find_str crlf rest) [
  | none ↦ found
  | some line ↦ let behind = drop (line + 2) rest in head_loop fuel behind (read_line behind found)
]

-- What a round of `consume_responses` does, with the input that it leaves.
pub data Consuming : Type 0 where
  waits refuses exits : Consuming
  consumes : Bytes → Client → Consuming

-- `now_ns() - c.sent_at.front()`.
unfoldable pub latency_since : ℕ → List ℕ → ℕ
latency_since now [] = now
latency_since now (t ∷ ts) = (2 ^ 64 + now - t) % 2 ^ 64

-- The accounts of a response that is there in full.
unfoldable pub note_response : Setup → Bool → Client → Client
unfolding bump latency_since
note_response setup good x =
    let (now, clock) = read_clock setup.deadline x.clock in
    record {
      conn = record x.conn { sent_at = drop 1 x.conn.sent_at };
      stats = record x.stats {
        requests = bump x.stats.requests 1;
        non_2xx = if good then x.stats.non_2xx else bump x.stats.non_2xx 1;
        latencies_ns = x.stats.latencies_ns ++ (latency_since now x.conn.sent_at ∷ []);
      };
      clock = clock;
    }

-- `if (Clock::now() < deadline_) enqueue(c);`.
unfoldable pub ask_again : Setup → Client → Client
unfolding enqueue
ask_again setup x =
    let (now, clock) = read_clock setup.deadline x.clock in
    let y : Client = record x { clock = clock } in
    if ltb now setup.deadline then enqueue setup y else y

abbrev pub account_response : Setup → Bool → Client → Client
account_response setup good x = ask_again setup (note_response setup good x)

-- The round once the length of the body is known.
unfoldable pub sized_round : Setup → Bytes → ℕ → ℕ → Client → Consuming
unfolding atoi note_response ask_again
sized_round setup rest head_end size x =
    let total = (head_end + 4 + size) % 2 ^ 64 in
    if ltb (length rest) total
    then waits
    else if length x.conn.sent_at == 0
    then refuses
    else consumes (drop total rest)
        (account_response setup (is_2xx (atoi (take 3 (drop 9 rest)))) x)

-- The round once the end of the head is found. A head that is not refused has the bytes of the status.
unfoldable pub on_head : Setup → Bytes → ℕ → Client → Consuming
unfolding head_loop sized_round
on_head setup rest head_end x =
    let head = take head_end rest in
    if ltb (length head) 12 then refuses else elim (head_loop (length head) head none) [
      | none ↦ exits
      | some size ↦ sized_round setup rest head_end size x
    ]

unfoldable pub consume_round : Setup → Bytes → Client → Consuming
unfolding on_head find_str
consume_round setup rest x = elim (find_str (codes "\r\n\r\n") rest) [
  | none ↦ waits
  | some head_end ↦ on_head setup rest head_end x
]

-- How `consume_responses`, or `service`, ends: it returns true or false, or the program exits.
pub data Ended : Type 0 where
  continues fails : Client → Ended
  exited : Ended

-- The loop on fuel; `none` means that the fuel ran out.
unfoldable pub consume_loop : ℕ → Setup → Bytes → Client → Option Ended
unfolding consume_round
consume_loop zero setup rest x = none
consume_loop (suc fuel) setup rest x = elim (consume_round setup rest x) [
  | waits ↦ some (continues (record x { conn = record x.conn { input = rest } }))
  | refuses ↦ some (fails x)
  | exits ↦ some exited
  | consumes rest' y ↦ consume_loop fuel setup rest' y
]

-- Each round takes a request off `sent_at`, and one is only added before the deadline.
unfoldable pub consume_responses : Setup → Client → Option Ended
unfolding consume_loop
consume_responses setup x =
    consume_loop (length x.conn.sent_at + length x.clock + 1) setup x.conn.input x
