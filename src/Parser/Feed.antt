-- ===== src/Parser/Feed.antt =====
-- `RequestParser::feed`: one round of its loop, and the loop.
pub mod Halting
pub mod Growth
pub mod Unused
pub mod Bodies
pub mod Rooms
pub mod Absorb
pub mod Splitting
pub mod Pieces
use http.Base.{
  ℕ, zero, suc, ◌+◌, ◌-◌, ◌*◌, Bool, true, false, not, [], ◌∷◌, ◌++◌, Option, none, some, Bytes,
  codes, ltb, leb, ◌==◌, if◌then◌else◌, length, take, drop, equal, find_str, min,
}
use http.Ascii.{is_empty}
use http.Request.{
  Request, ParserLimits, ParseError, bad_request, uri_too_long, header_fields_too_large,
}
use http.Parser.{
  State, RequestParser, request_line, headers, body, chunk_size, chunk_data, chunk_data_end,
  trailers, done, error, fail, wrap, refuse_if, refuse_none,
}
use http.Parser.Lines.{parse_request_line, parse_field_line}
use http.Parser.Framing.{finish_headers, parse_chunk_size}

abbrev pub crlf : Bytes
crlf = codes "\r\n"

-- What a round of the loop does: it returns, or it goes on with the next round. Either way it has
-- added the number to `consumed` and left the parser in that state.
pub data Round : Type 0 where
  halt next : ℕ → RequestParser → Round

-- `if (!ok) return consumed;`, then a `continue`.
abbrev pub go_on : ℕ → ℕ → RequestParser × Bool → Round
go_on failing passing (p, true) = next passing p
go_on failing passing (p, false) = halt failing p

-- `state_ = State::Headers`, made only where the line was accepted.
abbrev pub enter_headers : RequestParser × Bool → RequestParser × Bool
enter_headers (p, true) = (record p { state = headers }, true)
enter_headers (p, false) = (p, false)

-- `case State::RequestLine`, where the line ends at `eol`.
unfoldable pub on_request_line : RequestParser → Bytes → ℕ → Round
unfolding parse_request_line
on_request_line p rest eol =
    if eol == 0
    then next 2 p
    else if ltb p.limits.max_request_line eol
    then halt 0 (fail p uri_too_long "request-line too long")
    else go_on 0 (eol + 2) (enter_headers (parse_request_line p (take eol rest)))

-- `case State::RequestLine`. The unterminated tail may end in the first byte of the CRLF, hence the 1.
unfoldable pub at_request_line : RequestParser → Bytes → Round
unfolding on_request_line find_str
at_request_line p rest = elim (find_str crlf rest) [
  | none ↦
      if ltb (wrap (p.limits.max_request_line + 1)) (length rest)
      then halt 0 (fail p uri_too_long "request-line too long")
      else halt 0 p
  | some eol ↦ on_request_line p rest eol
]

-- The end of the header section, or of the trailer section.
abbrev pub end_section : RequestParser → Bool → RequestParser × Bool
end_section p true = finish_headers p
end_section p false = (record p { state = done }, true)

-- One more field line, of `line_len` bytes with its CRLF.
unfoldable pub on_field : RequestParser → Bool → Bytes → ℕ → Round
unfolding parse_field_line
on_field p into_headers line line_len =
    let counted = record p { header_count = wrap (p.header_count + 1) } in
    if ltb p.limits.max_header_count counted.header_count
    then halt line_len (fail counted header_fields_too_large "too many header fields")
    else go_on line_len line_len (parse_field_line counted into_headers line)

-- `case State::Headers` and `case State::Trailers`, where the line ends at `eol`.
unfoldable pub on_header_line : RequestParser → Bool → Bytes → ℕ → Round
unfolding on_field finish_headers
on_header_line p into_headers rest eol =
    let line_len = eol + 2 in
    let longer = record p { header_bytes = wrap (p.header_bytes + line_len) } in
    if ltb p.limits.max_header_bytes (wrap (p.header_bytes + line_len))
    then halt 0 (fail p header_fields_too_large "header section too large")
    else if eol == 0
    then go_on line_len line_len (end_section longer into_headers)
    else on_field longer into_headers (take eol rest) line_len

-- `case State::Headers` and `case State::Trailers`; the flag tells them apart.
unfoldable pub at_headers : RequestParser → Bool → Bytes → Round
unfolding on_header_line find_str
at_headers p into_headers rest = elim (find_str crlf rest) [
  | none ↦
      if ltb p.limits.max_header_bytes (wrap (p.header_bytes + length rest + 1))
      then halt 0 (fail p header_fields_too_large "header section too large")
      else halt 0 p
  | some eol ↦ on_header_line p into_headers rest eol
]

-- `case State::Body` and `case State::ChunkData`, with the state that follows the last byte.
unfoldable pub at_body : RequestParser → State → Bytes → Round
at_body p following rest =
    let n = min (length rest) p.remaining in
    if is_empty rest
    then halt 0 p
    else next n (record p {
      req = record p.req { body = p.req.body ++ take n rest };
      remaining = p.remaining - n;
      state = if p.remaining - n == 0 then following else p.state;
    })

-- `case State::ChunkDataEnd`.
unfoldable pub at_chunk_data_end : RequestParser → Bytes → Round
unfolding equal
at_chunk_data_end p rest =
    if ltb (length rest) 2
    then halt 0 p
    else if not (equal (take 2 rest) crlf)
    then halt 0 (fail p bad_request "missing CRLF after chunk data")
    else next 2 (record p { state = chunk_size })

-- `case State::ChunkSize`.
unfoldable pub at_chunk_size : RequestParser → Bytes → Round
unfolding parse_chunk_size find_str
at_chunk_size p rest = elim (find_str crlf rest) [
  | none ↦
      if ltb (wrap (p.limits.max_chunk_line + 1)) (length rest)
      then halt 0 (fail p bad_request "chunk-size line too long")
      else halt 0 p
  | some eol ↦
      if ltb p.limits.max_chunk_line eol
      then halt 0 (fail p bad_request "chunk-size line too long")
      else go_on 0 (eol + 2) (parse_chunk_size p (take eol rest))
]

-- The `switch`.
unfoldable pub round_in : State → RequestParser → Bytes → Round
unfolding at_request_line at_headers at_body at_chunk_data_end at_chunk_size
round_in request_line p rest = at_request_line p rest
round_in headers p rest = at_headers p true rest
round_in trailers p rest = at_headers p false rest
round_in body p rest = at_body p done rest
round_in chunk_data p rest = at_body p chunk_data_end rest
round_in chunk_data_end p rest = at_chunk_data_end p rest
round_in chunk_size p rest = at_chunk_size p rest
round_in done p rest = halt 0 p
round_in error p rest = halt 0 p

abbrev pub round : RequestParser → Bytes → Round
round p rest = round_in p.state p rest

-- The `for (;;)` on fuel, over what is left of the data; `none` means that the fuel ran out.
unfoldable pub feed_loop : ℕ → RequestParser → Bytes → ℕ → Option (RequestParser × ℕ)
unfolding round_in refuse_if refuse_none
feed_loop zero p rest consumed = none
feed_loop (suc fuel) p rest consumed = elim (round p rest) [
  | halt n q ↦ some (q, consumed + n)
  | next n q ↦ feed_loop fuel q (drop n rest) (consumed + n)
]

-- The new state and the number of bytes used. A round that goes on uses up a byte, or it leaves a
-- body that lacks none, so twice the length of the data and 2 are fuel enough.
unfoldable pub feed : RequestParser → Bytes → Option (RequestParser × ℕ)
unfolding feed_loop
feed p rest = feed_loop (2 * length rest + 2) p rest 0
