-- ===== src/Parser.antt =====
-- The state of the class `RequestParser` of src/http/request_parser.hpp, and its small operations.
pub mod Numbers
pub mod Lines
pub mod Framing
pub mod Frame
pub mod Passing
pub mod Accepted
pub mod Feed
use http.Base.{ℕ, ◌%◌, ◌^◌, Bool, true, false, not, ◌&&◌, Option, none, some, if◌then◌else◌}
use http.Request.{Request, empty_request, ParseError, no_error, ParserLimits}
use Prim.Native.String.{String}

-- `RequestParser::State`.
pub data State : Type 0 where
  request_line headers body chunk_size chunk_data chunk_data_end trailers done error : State

pub record RequestParser : Type 0 where
  pub limits : ParserLimits
  pub state : State
  pub req : Request
  pub error_code : ParseError
  pub error_detail : String
  pub header_bytes : ℕ
  pub header_count : ℕ
  pub remaining : ℕ

-- A `std::size_t` sum: it wraps at 64 bits.
abbrev pub wrap : ℕ → ℕ
wrap n = n % 2 ^ 64

-- `explicit RequestParser(ParserLimits limits = {})`.
abbrev pub new_parser : ParserLimits → RequestParser
new_parser l = record {
  limits = l;
  state = request_line;
  req = empty_request;
  error_code = no_error;
  error_detail = "";
  header_bytes = 0;
  header_count = 0;
  remaining = 0;
}

unfoldable pub reset : RequestParser → RequestParser
reset p = record p {
  state = request_line;
  req = empty_request;
  error_code = no_error;
  error_detail = "";
  header_bytes = 0;
  header_count = 0;
  remaining = 0;
}

-- The request, and the parser ready for the next one.
unfoldable pub take_request : RequestParser → Request × RequestParser
unfolding reset
take_request p = (p.req, reset p)

abbrev pub fail : RequestParser → ParseError → String → RequestParser
fail p e detail = record p { state = error; error_code = e; error_detail = detail }

abbrev pub is_request_line : State → Bool
is_request_line request_line = true
is_request_line _ = false

abbrev pub is_headers : State → Bool
is_headers headers = true
is_headers _ = false

abbrev pub is_done : State → Bool
is_done done = true
is_done _ = false

abbrev pub is_error : State → Bool
is_error error = true
is_error _ = false

abbrev pub is_done_parser : RequestParser → Bool
is_done_parser p = is_done p.state

abbrev pub failed : RequestParser → Bool
failed p = is_error p.state

abbrev pub started : RequestParser → Bool
started p = not (is_request_line p.state)

abbrev pub headers_complete : RequestParser → Bool
headers_complete p =
    not (is_request_line p.state) && not (is_headers p.state) && not (is_error p.state)

-- `fail(e, detail); return false;`.
abbrev pub reject : RequestParser → ParseError → String → RequestParser × Bool
reject p e detail = (fail p e detail, false)

-- `if (test) { fail(e, detail); return false; }`, and what follows.
unfoldable pub refuse_if :
    RequestParser → Bool → ParseError → String → RequestParser × Bool → RequestParser × Bool
refuse_if p test e detail following = if test then reject p e detail else following

-- The same where the test is that there is no value, and what follows uses it.
unfoldable pub refuse_none {ℓ} :
    {A : Type ℓ}
    → RequestParser
    → Option A
    → ParseError
    → String
    → (A → RequestParser × Bool)
    → RequestParser × Bool
refuse_none p o e detail following = elim o [ none ↦ reject p e detail | some a ↦ following a ]
