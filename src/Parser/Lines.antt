-- ===== src/Parser/Lines.antt =====
-- The two kinds of line of a request: `parse_request_line` and `parse_field_line`.
use http.Base.{
  ℕ, zero, suc, ◌+◌, ◌-◌, Bool, true, false, not, ◌&&◌, ◌||◌, [], ◌∷◌, Option, none, some, Bytes,
  codes, ltb, leb, ◌==◌, if◌then◌else◌, length, take, drop, equal, find, find_from, find_str,
  before,
}
use http.Ascii.{is_empty, iequals, is_token, trim_ows}
use http.Headers.{add, has}
use http.Request.{bad_request, version_not_supported}
use http.Parser.{RequestParser, refuse_if, refuse_none}
use http.Parser.Numbers.{is_digit}

unfoldable pub target_bytes : Bytes → Bool
target_bytes [] = true
target_bytes (u ∷ t) = if leb u 0x20 || u == 0x7f then false else target_bytes t

unfoldable pub valid_target : Bytes → Bool
unfolding target_bytes
valid_target t = if is_empty t then false else target_bytes t

unfoldable pub starts_with_icase : Bytes → Bytes → Bool
unfolding iequals
starts_with_icase s prefix =
    leb (length prefix) (length s) && iequals (take (length prefix) s) prefix

-- `s[i]`; it is read inside the string only.
abbrev pub byte_at : Bytes → ℕ → ℕ
byte_at [] i = 0
byte_at (c ∷ s) zero = c
byte_at (c ∷ s) (suc i) = byte_at s i

-- Method, target and version, if the line has two blanks.
unfoldable pub split_request_line : Bytes → Option (Bytes × Bytes × Bytes)
unfolding find find_from
split_request_line line = elim (find b' ' line) [
  | none ↦ none
  | some sp1 ↦ elim (find_from (sp1 + 1) b' ' line) [
    | none ↦ none
    | some sp2 ↦ elim (find_from (sp2 + 1) b' ' line) [
      | some sp3 ↦ none
      | none ↦ some (take sp1 line, take (sp2 - sp1 - 1) (drop (sp1 + 1) line), drop (sp2 + 1) line)
    ]
  ]
]

unfoldable pub malformed_version : Bytes → Bool
unfolding equal is_digit
malformed_version version =
    not (length version == 8)
    || not (equal (take 5 version) (codes "HTTP/"))
    || not (is_digit (byte_at version 5))
    || not (byte_at version 6 == b'.')
    || not (is_digit (byte_at version 7))

-- `target.find("//") + 2`; `npos + 2` wraps to 1.
unfoldable pub authority_of : Bytes → ℕ
unfolding find_str
authority_of target = elim (find_str (codes "//") target) [ none ↦ 1 | some i ↦ i + 2 ]

-- `path_and_query`, or `none` for a form that is not supported.
unfoldable pub path_and_query_of : Bytes → Bytes → Option Bytes
unfolding starts_with_icase authority_of find_from equal
path_and_query_of method target =
    if starts_with_icase target (codes "http://") || starts_with_icase target (codes "https://")
    then elim (find_from (authority_of target) b'/' target) [
      | none ↦ some (codes "/")
      | some slash ↦ some (drop slash target)
    ]
    else if not (byte_at target 0 == b'/')
        && not (equal target (codes "*") && equal method (codes "OPTIONS"))
    then none
    else some target

-- The part behind the first `?`.
unfoldable pub query_of : Bytes → Bytes
unfolding find
query_of path_and_query = elim (find b'?' path_and_query) [
  | none ↦ []
  | some qmark ↦ drop (qmark + 1) path_and_query
]

-- The assignments at the end of `parse_request_line`.
abbrev pub accept_line : RequestParser → Bytes → Bytes → ℕ → ℕ → Bytes → RequestParser
accept_line p method target major minor path_and_query = record p {
  req = record p.req {
    method = method;
    target = target;
    path = before (find b'?' path_and_query) path_and_query;
    query = query_of path_and_query;
    version_major = major;
    version_minor = minor;
  };
}

-- `parse_request_line` once the line has its three parts.
unfoldable pub parse_parts : RequestParser → Bytes → Bytes → Bytes → RequestParser × Bool
unfolding is_token valid_target malformed_version path_and_query_of query_of find before
parse_parts p method target version =
    let major = byte_at version 5 - b'0' in
    let minor = byte_at version 7 - b'0' in
    refuse_if p (not (is_token method)) bad_request "invalid method" (
      refuse_if p (not (valid_target target)) bad_request "invalid request-target" (
        refuse_if p (malformed_version version) bad_request "malformed HTTP-version" (
          refuse_if p (not (major == 1) || ltb 1 minor) version_not_supported
            "only HTTP/1.0 and HTTP/1.1 are supported"
            (refuse_none p (path_and_query_of method target) bad_request
              "unsupported request-target form"
              λ path_and_query. (accept_line p method target major minor path_and_query, true)))))

unfoldable pub parse_request_line : RequestParser → Bytes → RequestParser × Bool
unfolding split_request_line parse_parts
parse_request_line p line =
    refuse_none p (split_request_line line) bad_request "request-line must have exactly three parts"
      λ (parts : Bytes × Bytes × Bytes). parse_parts p parts.0 parts.1 parts.2

-- The loop over the bytes of a field's value.
unfoldable pub has_control : Bytes → Bool
has_control [] = false
has_control (u ∷ v) = if (ltb u 0x20 && not (u == b'\t')) || u == 0x7f then true else has_control v

-- `into.add(name, value)`; the flag tells whether `into` is `req_.headers` or `req_.trailers`.
abbrev pub add_field : RequestParser → Bool → Bytes → Bytes → RequestParser
add_field p true name value = record p {
  req = record p.req { headers = add p.req.headers name value };
}
add_field p false name value = record p {
  req = record p.req { trailers = add p.req.trailers name value };
}

-- `parse_field_line` once the colon is found.
unfoldable pub parse_field : RequestParser → Bool → Bytes → Bytes → RequestParser × Bool
unfolding is_token has_control iequals has add
parse_field p into_headers name value =
    refuse_if p (not (is_token name)) bad_request "invalid header field name" (
      refuse_if p (has_control value) bad_request "control character in header value" (
        refuse_if p
          (into_headers && iequals name (codes "Host") && has p.req.headers (codes "Host"))
          bad_request "duplicate Host header" (add_field p into_headers name value, true)))

unfoldable pub parse_field_line : RequestParser → Bool → Bytes → RequestParser × Bool
unfolding find parse_field trim_ows
parse_field_line p into_headers line =
    refuse_none p (find b':' line) bad_request "header line without ':'"
      λ colon. parse_field p into_headers (take colon line) (trim_ows (drop (colon + 1) line))
