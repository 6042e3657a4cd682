-- ===== src/Response.antt =====
-- The serializer of responses: src/http/response.hpp and src/http/response.cpp.
pub mod Digits
pub mod Decimals
pub mod Sizes
pub mod Rounds
pub mod Chunks
pub mod Head
pub mod Declared
use http.Base.{
  ℕ, zero, suc, ◌+◌, ◌-◌, ◌/◌, ◌%◌, Bool, true, false, not, ◌&&◌, ◌||◌, List, [], ◌∷◌, ◌++◌, Option,
  none, some, Bytes, codes, ltb, ◌==◌, if◌then◌else◌, length,
}
use http.Ascii.{iequals, is_empty}
use http.Headers.{Field, Headers, has, set}

-- A digit as `std::to_chars` writes it.
unfoldable pub digit_char : ℕ → ℕ
digit_char d = if ltb d 10 then b'0' + d else b'a' + d - 10

-- `std::to_chars`, from the last digit on. A number of 64 bits has at most 64 digits.
unfoldable pub to_chars_loop : ℕ → ℕ → ℕ → Bytes → Bytes
unfolding digit_char
to_chars_loop zero base v shown = shown
to_chars_loop (suc fuel) base v shown = elim (ltb v base) [
  | true ↦ digit_char v ∷ shown
  | false ↦ to_chars_loop fuel base (v / base) (digit_char (v % base) ∷ shown)
]

-- `std::to_string`.
abbrev pub to_decimal : ℕ → Bytes
to_decimal n = to_chars_loop 64 10 n []

-- `append_number`.
unfoldable pub append_number : Bytes → ℕ → ℕ → Bytes
unfolding to_chars_loop
append_number out v base = out ++ to_chars_loop 64 base v []

unfoldable pub is_framing_header : Bytes → Bool
unfolding iequals
is_framing_header name =
    iequals name (codes "Content-Length")
    || iequals name (codes "Transfer-Encoding")
    || iequals name (codes "Connection")
    || iequals name (codes "Date")

unfoldable pub reason_phrase : ℕ → Bytes
reason_phrase status =
    if status == 100
    then codes "Continue"
    else if status == 200
    then codes "OK"
    else if status == 201
    then codes "Created"
    else if status == 204
    then codes "No Content"
    else if status == 206
    then codes "Partial Content"
    else if status == 301
    then codes "Moved Permanently"
    else if status == 302
    then codes "Found"
    else if status == 304
    then codes "Not Modified"
    else if status == 400
    then codes "Bad Request"
    else if status == 403
    then codes "Forbidden"
    else if status == 404
    then codes "Not Found"
    else if status == 405
    then codes "Method Not Allowed"
    else if status == 408
    then codes "Request Timeout"
    else if status == 411
    then codes "Length Required"
    else if status == 413
    then codes "Content Too Large"
    else if status == 414
    then codes "URI Too Long"
    else if status == 417
    then codes "Expectation Failed"
    else if status == 429
    then codes "Too Many Requests"
    else if status == 431
    then codes "Request Header Fields Too Large"
    else if status == 500
    then codes "Internal Server Error"
    else if status == 501
    then codes "Not Implemented"
    else if status == 503
    then codes "Service Unavailable"
    else if status == 505
    then codes "HTTP Version Not Supported"
    else codes "Unknown"

-- `P` is the type of body producers. An open file is its descriptor.
pub record Response {ℓ} (P : Type ℓ) : Type ℓ where
  pub status : ℕ
  pub headers : Headers
  pub body : Bytes
  pub file : Option ℕ
  pub file_offset : ℕ
  pub file_length : ℕ
  pub producer : Option P
  pub stream_length : Option ℕ

-- `Response{}`.
abbrev pub empty_response {ℓ} : {P : Type ℓ} → Response P
empty_response = record {
  status = 200;
  headers = [];
  body = [];
  file = none;
  file_offset = 0;
  file_length = 0;
  producer = none;
  stream_length = none;
}

-- `Response::text`.
unfoldable pub text {ℓ} : {P : Type ℓ} → ℕ → Bytes → Bytes → Response P
unfolding set
text status body content_type = record empty_response {
  status = status;
  headers = set [] (codes "Content-Type") content_type;
  body = body;
}

abbrev pub plain_text : Bytes
plain_text = codes "text/plain; charset=utf-8"

pub data Framing : Type 0 where
  no_body by_length chunked close_delimited : Framing

pub record HeadOptions : Type 0 where
  pub keep_alive : Bool
  pub http10_client : Bool
  pub date : Bytes

-- The framing of a response, and the length that goes with `by_length`.
unfoldable pub choose_framing {ℓ} : {P : Type ℓ} → Response P → HeadOptions → Framing × ℕ
choose_framing res opts =
    if (res.status / 100) == 1 || res.status == 204 || res.status == 304
    then (no_body, 0)
    else elim res.file [
      | some fd ↦ (by_length, res.file_length)
      | none ↦ elim res.producer [
        | some p ↦ elim res.stream_length [
          | some n ↦ (by_length, n)
          | none ↦ (if opts.http10_client then close_delimited else chunked, 0)
        ]
        | none ↦ (by_length, length res.body)
      ]
    ]

abbrev pub is_close_delimited : Framing → Bool
is_close_delimited close_delimited = true
is_close_delimited _ = false

-- `out.append(name).append(": ").append(value).append("\r\n")`.
abbrev pub append_field : Bytes → Bytes → Bytes → Bytes
append_field out name value = (((out ++ name) ++ codes ": ") ++ value) ++ codes "\r\n"

-- The loop over `res.headers`.
unfoldable pub append_headers : Bytes → Headers → Bytes
unfolding is_framing_header
append_headers out [] = out
append_headers out (f ∷ fs) =
    append_headers (if is_framing_header f.0 then out else append_field out f.0 f.1) fs

-- The status line.
unfoldable pub append_status : Bytes → ℕ → Bytes
unfolding append_number reason_phrase
append_status out status =
    ((append_number (out ++ codes "HTTP/1.1 ") status 10 ++ codes " ") ++ reason_phrase status)
    ++ codes "\r\n"

-- The field that declares the framing.
unfoldable pub append_framing : Bytes → Framing → ℕ → Bytes
unfolding append_number
append_framing out by_length n =
    append_number (out ++ codes "Content-Length: ") n 10 ++ codes "\r\n"
append_framing out chunked n = out ++ codes "Transfer-Encoding: chunked\r\n"
append_framing out no_body n = out
append_framing out close_delimited n = out

unfoldable pub append_connection : Bytes → Bool → Bool → Bytes
append_connection out keep_alive http10_client =
    if not keep_alive
    then out ++ codes "Connection: close\r\n"
    else if http10_client
    then out ++ codes "Connection: keep-alive\r\n"
    else out

-- What `write_head` appends once the framing is chosen.
unfoldable pub append_head {ℓ} :
    {P : Type ℓ} → Bytes → Response P → HeadOptions → Framing → ℕ → Bytes
unfolding has append_status append_headers append_framing append_connection
append_head out res opts framing n =
    let keep_alive = opts.keep_alive && not (is_close_delimited framing) in
    let listed = append_headers (append_status out res.status) res.headers in
    let served =
      if not (has res.headers (codes "Server"))
      then listed ++ codes "Server: httpd-cpp\r\n"
      else listed in
    let dated =
      if not (is_empty opts.date) then append_field served (codes "Date") opts.date else served in
    append_connection (append_framing dated framing n) keep_alive opts.http10_client ++ codes "\r\n"

unfoldable pub write_head {ℓ} : {P : Type ℓ} → Bytes → Response P → HeadOptions → Bytes × Framing
unfolding choose_framing append_head
write_head out res opts =
    let (framing, n) = choose_framing res opts in (append_head out res opts framing n, framing)

-- A chunk of size zero would end the body.
unfoldable pub append_chunk : Bytes → Bytes → Bytes
unfolding append_number
append_chunk out piece =
    if is_empty piece
    then out
    else ((append_number out (length piece) 16 ++ codes "\r\n") ++ piece) ++ codes "\r\n"

-- The loop over the trailers.
unfoldable pub append_trailers : Bytes → Headers → Bytes
append_trailers out [] = out
append_trailers out (f ∷ fs) = append_trailers (append_field out f.0 f.1) fs

unfoldable pub append_last_chunk : Bytes → Headers → Bytes
unfolding append_trailers
append_last_chunk out trailers = append_trailers (out ++ codes "0\r\n") trailers ++ codes "\r\n"
