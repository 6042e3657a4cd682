-- ===== src/App.antt =====
-- src/app/routes.cpp: what the routes parse, print and produce. Their handlers are in App/Routes.antt.
pub mod Numbers
pub mod Escapes
pub mod Producers
pub mod Routes
use http.Base.{
  ℕ, zero, suc, ◌+◌, ◌-◌, ◌*◌, ◌/◌, ◌%◌, ◌^◌, Bool, true, false, not, ◌&&◌, ◌||◌, List, [], ◌∷◌,
  ◌++◌, Option, none, some, Bytes, codes, ltb, leb, ◌==◌, if◌then◌else◌, length, take, drop, min,
  replicate,
}
use http.Ascii.{is_empty}
use http.Parser.Numbers.{is_digit}
use http.Crc32.{crc32}
use http.Headers.{Headers, set}
use http.Response.{to_chars_loop, to_decimal}
use http.Server.{Pulled, pulled}

abbrev pub max_generated_bytes : ℕ
max_generated_bytes = 2 ^ 30

abbrev pub max_stream_chunks : ℕ
max_stream_chunks = 100000

abbrev pub bytes_piece : ℕ
bytes_piece = 64 * 1024

-- `std::from_chars` in base 10: the number that the leading digits write, and the bytes that follow.
unfoldable pub leading_digits : Bytes → ℕ → ℕ × Bytes
leading_digits [] v = (v, [])
leading_digits (c ∷ s) v =
    let further = leading_digits s (v * 10 + (c - b'0')) in
    if is_digit c then further else (v, c ∷ s)

-- `none` is an error: there is no digit, or the number does not fit in 64 bits.
unfoldable pub from_chars : Bytes → Option (ℕ × Bytes)
unfolding leading_digits
from_chars [] = none
from_chars (c ∷ s) =
    let r = leading_digits (c ∷ s) 0 in
    if not (is_digit c) then none else if ltb r.0 (2 ^ 64) then some r else none

unfoldable pub parse_u64 : Bytes → Option ℕ
unfolding from_chars
parse_u64 s = if is_empty s then none else elim (from_chars s) [
  | none ↦ none
  | some (v, rest) ↦ if is_empty rest then some v else none
]

-- The bytes that `pattern` has from a position on.
unfoldable pub alphabet : ℕ → ℕ → Bytes
alphabet i zero = []
alphabet i (suc n) = (b'a' + i % 26) ∷ alphabet (i + 1) n

unfoldable pub pattern : Bytes
unfolding alphabet
pattern = alphabet 0 (bytes_piece + 26)

-- A byte of `json_escape`.
unfoldable pub escape_byte : ℕ → Bytes
escape_byte c =
    (if c == b'"' || c == 92 then 92 ∷ [] else []) ++ (if leb 0x20 c then c ∷ [] else [])

unfoldable pub json_escape : Bytes → Bytes
unfolding escape_byte
json_escape [] = []
json_escape (c ∷ s) = escape_byte c ++ json_escape s

-- `%08x`.
abbrev pub eight_hex : ℕ → Bytes
eight_hex n = let digits = to_chars_loop 64 16 n [] in replicate (8 - length digits) b'0' ++ digits

-- The two closures that the routes leave in a response, with what they have captured.
pub data Producer : Type 0 where
  stream_producer : (i n crc : ℕ) → Producer
  bytes_producer : (sent n : ℕ) → Producer

unfoldable pub chunk_line : ℕ → ℕ → Bytes
chunk_line i n = codes "chunk " ++ to_decimal i ++ codes " of " ++ to_decimal n ++ codes "\n"

unfoldable pub set_trailers : ℕ → ℕ → Headers → Headers
unfolding set
set_trailers n crc trailers =
    set (set trailers (codes "X-Chunk-Count") (to_decimal n)) (codes "X-Content-CRC32")
      (eight_hex crc)

-- The end of the stream's producer.
unfoldable pub after_line : Bytes → ℕ → ℕ → ℕ → Headers → Pulled Producer
unfolding set_trailers
after_line piece i n crc trailers =
    if ltb i n
    then pulled piece trailers true (stream_producer i n crc)
    else pulled piece (set_trailers n crc trailers) false (stream_producer i n crc)

unfoldable pub pull_stream : ℕ → ℕ → ℕ → Headers → Pulled Producer
unfolding chunk_line crc32 after_line
pull_stream i n crc trailers =
    if ltb i n
    then (let line = chunk_line i n in after_line line (i + 1) n (crc32 line crc) trailers)
    else after_line [] i n crc trailers

unfoldable pub pull_bytes : ℕ → ℕ → Headers → Pulled Producer
unfolding pattern
pull_bytes sent n trailers =
    let size = min (n - sent) bytes_piece in
    pulled (take size (drop (sent % 26) pattern)) trailers (ltb (sent + size) n)
      (bytes_producer (sent + size) n)

-- A call of a producer.
unfoldable pub pull : Producer → Headers → Pulled Producer
unfolding pull_stream pull_bytes
pull (stream_producer i n crc) trailers = pull_stream i n crc trailers
pull (bytes_producer sent n) trailers = pull_bytes sent n trailers
