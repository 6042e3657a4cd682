-- ===== src/Parser/Framing.antt =====
-- How the body of a request is delimited: `finish_headers` and `parse_chunk_size`.
use http.Base.{
  ℕ, ◌+◌, Bool, true, false, not, ◌&&◌, ◌||◌, Option, none, some, Bytes, codes, ltb, ◌==◌,
  if◌then◌else◌, length, find, before,
}
use http.Ascii.{is_empty, iequals, trim_ows}
use http.Headers.{get, has}
use http.Request.{Request, is_http10, bad_request, payload_too_large, not_implemented}
use http.Parser.{
  RequestParser, refuse_if, refuse_none, reject, body, chunk_size, chunk_data, trailers, done,
  is_done_parser, wrap,
}
use http.Parser.Numbers.{parse_content_length, hex_loop}

-- The branch of a Transfer-Encoding.
unfoldable pub frame_chunked : RequestParser → Bytes → RequestParser × Bool
unfolding is_http10 iequals trim_ows
frame_chunked p te =
    refuse_if p (is_http10 p.req) bad_request "Transfer-Encoding in an HTTP/1.0 request" (
      refuse_if p (not (iequals (trim_ows te) (codes "chunked"))) not_implemented
        "unsupported transfer-coding" (record p { state = chunk_size }, true))

-- The branch of a Content-Length.
unfoldable pub frame_length : RequestParser → Bytes → RequestParser × Bool
unfolding parse_content_length
frame_length p cl =
    refuse_none p (parse_content_length cl) bad_request "invalid Content-Length" λ n.
      refuse_if p (ltb p.limits.max_body_bytes n) payload_too_large "body exceeds limit"
        (record p { remaining = n; state = if n == 0 then done else body }, true)

-- The framing by the two fields, up to the assignment of `expect_continue`.
unfoldable pub frame_body : RequestParser → Option Bytes → Option Bytes → RequestParser × Bool
unfolding frame_chunked frame_length
frame_body p (some te) (some cl) = reject p bad_request "both Transfer-Encoding and Content-Length"
frame_body p (some te) none = frame_chunked p te
frame_body p none (some cl) = frame_length p cl
frame_body p none none = (record p { state = done }, true)

-- `expect && iequals(trim_ows(*expect), "100-continue")`.
unfoldable pub expects_continue : Request → Bool
unfolding get iequals trim_ows
expects_continue r = elim (get r.headers (codes "Expect")) [
  | none ↦ false
  | some expect ↦ iequals (trim_ows expect) (codes "100-continue")
]

-- The last assignment of `finish_headers`, made only where the framing was accepted.
abbrev pub note_expect : RequestParser × Bool → RequestParser × Bool
note_expect (p, false) = (p, false)
note_expect (p, true) = (
  record p {
    req = record p.req { expect_continue = expects_continue p.req && not (is_done_parser p) };
  },
  true,
)

unfoldable pub finish_headers : RequestParser → RequestParser × Bool
unfolding has get frame_body expects_continue
finish_headers p =
    refuse_if p (p.req.version_minor == 1 && not (has p.req.headers (codes "Host"))) bad_request
      "HTTP/1.1 request without Host"
      (note_expect (
        frame_body p (get p.req.headers (codes "Transfer-Encoding"))
          (get p.req.headers (codes "Content-Length"))))

-- What becomes of the parser at a chunk of that size.
unfoldable pub start_chunk : RequestParser → ℕ → RequestParser × Bool
start_chunk p size =
    if size == 0
    then (record p { state = trailers }, true)
    else refuse_if p
        (ltb p.limits.max_body_bytes size
          || ltb p.limits.max_body_bytes (wrap (length p.req.body + size)))
        payload_too_large "body exceeds limit"
        (record p { remaining = size; state = chunk_data }, true)

unfoldable pub parse_chunk_size : RequestParser → Bytes → RequestParser × Bool
unfolding start_chunk hex_loop trim_ows find before
parse_chunk_size p line =
    let digits = trim_ows (before (find b';' line) line) in
    refuse_if p (is_empty digits || ltb 16 (length digits)) bad_request "invalid chunk size"
      (refuse_none p (hex_loop digits 0) bad_request "invalid chunk size" (start_chunk p))
