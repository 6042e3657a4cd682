-- ===== src/Tests/Parsing.antt =====
-- The request parser, run at concrete inputs.
use http.Base.{
  ℕ, ◌≤◌, ◌≢◌, [], ◌∷◌, ◌++◌, Option, none, some, ◌≡◌, refl, ◌↔◌, arith, Bytes, codes, length, drop,
  All,
}
use http.Headers.Tokens.{split_on}
use http.Request.{default_limits}
use http.Parser.{RequestParser, new_parser}
use http.Parser.Numbers.{parse_decimal, parse_content_length, hex_loop}
use http.Parser.Numbers.Radix.{IsDigit, decimal_value, parse_decimal_iff}
use http.Parser.Numbers.Lengths.{IsMember, HexNumber, parse_content_length_iff, hex_loop-HexNumber}
use http.Parser.Feed.{feed}
use http.Parser.Feed.Halting.{Fed, feed-Fed, feed_total}
use http.Parser.Feed.Growth.{SizesFit}
use http.Parser.Feed.Pieces.{feed_pieces, feed_pieces-joined}
use http.Parser.Accepted.{IsAccepted}
use http.Parser.Accepted.Feeding.{feed-IsAccepted}

abbrev fresh : RequestParser
fresh = new_parser default_limits

-- A request with a body, and the first bytes of the next.
abbrev sized_input : Bytes
sized_input = codes "POST /a?b HTTP/1.1\r\nHost: x\r\nContent-Length: 3\r\n\r\nabcGET"

abbrev chunked_input : Bytes
chunked_input =
    codes
      "POST / HTTP/1.1\r\nHost: x\r\nTransfer-Encoding: chunked\r\n\r\n3;q\r\nabc\r\n0\r\nT: 1\r\n\r\n"

abbrev outcome : Option (RequestParser × ℕ) → Option (Bytes × Bytes × ℕ)
outcome none = none
outcome (some (p, n)) = some (p.req.path, p.req.body, n)

-- The final state of a run that is known to end.
abbrev parsed : Bytes → RequestParser
parsed s = (feed_total fresh s).0

abbrev used : Bytes → ℕ
used s = (feed_total fresh s).1

sized_run : outcome (feed fresh sized_input) ≡ some (codes "/a", codes "abc", 53)
unfolding feed
sized_run = refl

chunked_run :
    outcome (feed fresh chunked_input) ≡ some (codes "/", codes "abc", length chunked_input)
unfolding feed
chunked_run = refl

fresh_fits : SizesFit fresh (length sized_input)
fresh_fits = record {
  line_fits = omega arith;
  chunk_line_fits = omega arith;
  header_fits = omega arith;
}

feed_pieces-joined_example :
    feed_pieces fresh [] (sized_input ∷ chunked_input ∷ [])
    ≡ some (
      parsed (sized_input ++ chunked_input),
      drop (used (sized_input ++ chunked_input)) (sized_input ++ chunked_input),
    )
feed_pieces-joined_example =
    feed_pieces-joined fresh (parsed (sized_input ++ chunked_input)) sized_input
      (chunked_input ∷ []) (used (sized_input ++ chunked_input))
      (record { line_fits = omega arith; chunk_line_fits = omega arith; header_fits = omega arith })
      (feed_total fresh (sized_input ++ chunked_input)).2

feed-IsAccepted_example : IsAccepted (parsed sized_input)
feed-IsAccepted_example =
    feed-IsAccepted fresh (parsed sized_input) sized_input (used sized_input) (refl, refl)
      (feed_total fresh sized_input).2

feed-Fed_example :
    (q : RequestParser) × (n : ℕ) × (feed fresh sized_input ≡ some (q, n))
    × Fed fresh sized_input q n
    × ((r : RequestParser) (m : ℕ) → Fed fresh sized_input r m → (r ≡ q) × (m ≡ n))
feed-Fed_example = feed-Fed fresh sized_input

parse_decimal_iff_example : (parse_decimal (codes "042") ≡ some 42) ↔ (
    (codes "042" ≢ []) × (3 ≤ 19) × All IsDigit (codes "042") × (42 ≡ decimal_value (codes "042")))
parse_decimal_iff_example = parse_decimal_iff (codes "042") 42

hex_loop-HexNumber_example :
    (hex_loop (codes "1aF") 0 ≡ some 0x1af) ↔ HexNumber (codes "1aF") 0 0x1af
hex_loop-HexNumber_example = hex_loop-HexNumber (codes "1aF") 0x1af (omega arith)

parse_content_length_iff_example :
    (parse_content_length (codes "5, 5") ≡ some 5) ↔ All (IsMember 5) (split_on b',' (codes "5, 5"))
parse_content_length_iff_example = parse_content_length_iff (codes "5, 5") 5
