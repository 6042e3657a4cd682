-- ===== src/Parser/Accepted.antt =====
-- What the parser guarantees of a request that it accepts: its head is well formed and its body is
-- delimited in one way only.
pub mod Heads
pub mod Bodies
pub mod Feeding
use http.Base.{
  ℕ, ◌+◌, ◌≤◌, Bool, true, false, [], ◌≡◌, ◌⊎◌, Option, some, none, Bytes, codes, length, All,
}
use http.Ascii.{iequals, is_token, trim_ows}
use http.Headers.{Field, Headers, get, has}
use http.Headers.Lookup.{Distinct}
use http.Request.{Request}
use http.Parser.{
  State, RequestParser, request_line, headers, body, chunk_size, chunk_data, chunk_data_end,
  trailers, done, error,
}
use http.Parser.Lines.{valid_target, has_control}
use http.Parser.Numbers.{parse_content_length}

-- The name is a token, and no control byte stands in the value.
abbrev pub IsClean : Field → Type 0
IsClean f = (is_token f.0 ≡ true) × (has_control f.1 ≡ false)

-- The request line and the fields are well formed.
pub record HeadOk (r : Request) : Type 0 where
  pub method_ok : is_token r.method ≡ true
  pub target_ok : valid_target r.target ≡ true
  pub major_ok : r.version_major ≡ 1
  pub minor_ok : r.version_minor ≤ 1
  pub fields_ok : All IsClean r.headers
  pub fields_distinct : Distinct r.headers

abbrev pub transfer_encoding : Request → Option Bytes
transfer_encoding r = get r.headers (codes "Transfer-Encoding")

abbrev pub content_length : Request → Option Bytes
content_length r = get r.headers (codes "Content-Length")

-- A request of HTTP/1.1 names its host.
abbrev pub HostOk : Request → Type 0
HostOk r = r.version_minor ≡ 1 → has r.headers (codes "Host") ≡ true

-- The only framing is the chunked transfer coding, of HTTP/1.1.
pub record IsChunked (r : Request) : Type 0 where
  pub coding : Bytes
  pub coded : transfer_encoding r ≡ some coding
  pub chunked : iequals (trim_ows coding) (codes "chunked") ≡ true
  pub unsized : content_length r ≡ none
  pub recent : r.version_minor ≡ 1

-- The only framing is a Content-Length, of that many bytes.
pub record IsSized (r : Request) (n : ℕ) : Type 0 where
  pub digits : Bytes
  pub declared : content_length r ≡ some digits
  pub read_as : parse_content_length digits ≡ some n
  pub uncoded : transfer_encoding r ≡ none

-- There is no framing and no body.
pub record IsBare (r : Request) : Type 0 where
  pub uncoded : transfer_encoding r ≡ none
  pub unsized : content_length r ≡ none
  pub no_body : r.body ≡ []

-- What holds in each state, of the request and of the bytes that its body still lacks.
abbrev pub InState : State → Request → ℕ → Type 0
InState request_line r k = (r.headers ≡ []) × (r.body ≡ [])
InState headers r k = HeadOk r × (r.body ≡ [])
InState body r k = HeadOk r × HostOk r × IsSized r (length r.body + k)
InState chunk_size r k = HeadOk r × HostOk r × IsChunked r
InState chunk_data r k = HeadOk r × HostOk r × IsChunked r
InState chunk_data_end r k = HeadOk r × HostOk r × IsChunked r
InState trailers r k = HeadOk r × HostOk r × IsChunked r
InState done r k = HeadOk r × HostOk r × (IsBare r ⊎ (IsSized r (length r.body) ⊎ IsChunked r))
InState error r k = Unit

abbrev pub IsAccepted : RequestParser → Type 0
IsAccepted p = InState p.state p.req p.remaining
