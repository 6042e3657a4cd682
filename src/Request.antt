-- ===== src/Request.antt =====
-- src/http/request_parser.hpp and the free functions of src/http/request_parser.cpp: the request, the
-- parser's errors and its limits.
use http.Base.{[], ℕ, Bool, true, false, ◌&&◌, Bytes, codes, ◌==◌, if◌then◌else◌, ◌*◌}
use http.Headers.{Headers, has_token}
use Prim.Native.String.{String}

pub record Request : Type 0 where
  pub method : Bytes
  pub target : Bytes
  pub path : Bytes
  pub query : Bytes
  pub version_major : ℕ
  pub version_minor : ℕ
  pub headers : Headers
  pub trailers : Headers
  pub body : Bytes
  pub expect_continue : Bool

-- `Request{}`.
abbrev pub empty_request : Request
empty_request = record {
  method = codes "";
  target = codes "";
  path = codes "";
  query = codes "";
  version_major = 1;
  version_minor = 1;
  headers = no_fields;
  trailers = no_fields;
  body = codes "";
  expect_continue = false;
}
  where
    no_fields : Headers
    no_fields = []

unfoldable pub keep_alive : Request → Bool
unfolding has_token
keep_alive r =
    if has_token r.headers (codes "Connection") (codes "close")
    then false
    else if r.version_minor == 0
    then has_token r.headers (codes "Connection") (codes "keep-alive")
    else true

unfoldable pub is_http10 : Request → Bool
is_http10 r = r.version_major == 1 && r.version_minor == 0

pub data ParseError : Type 0 where
  no_error bad_request uri_too_long header_fields_too_large : ParseError
  payload_too_large not_implemented version_not_supported : ParseError

unfoldable pub status_for : ParseError → ℕ
status_for no_error = 200
status_for bad_request = 400
status_for uri_too_long = 414
status_for header_fields_too_large = 431
status_for payload_too_large = 413
status_for not_implemented = 501
status_for version_not_supported = 505

unfoldable pub to_string : ParseError → String
to_string no_error = "none"
to_string bad_request = "bad_request"
to_string uri_too_long = "uri_too_long"
to_string header_fields_too_large = "header_fields_too_large"
to_string payload_too_large = "payload_too_large"
to_string not_implemented = "not_implemented"
to_string version_not_supported = "version_not_supported"

pub record ParserLimits : Type 0 where
  pub max_request_line : ℕ
  pub max_header_bytes : ℕ
  pub max_header_count : ℕ
  pub max_body_bytes : ℕ
  pub max_chunk_line : ℕ

abbrev pub default_limits : ParserLimits
default_limits = record {
  max_request_line = 8 * 1024;
  max_header_bytes = 16 * 1024;
  max_header_count = 100;
  max_body_bytes = 8 * 1024 * 1024;
  max_chunk_line = 1024;
}
