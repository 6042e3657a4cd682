-- ===== src/Response/Sizes.antt =====
-- The line of a chunk's size that the server writes, read by its own parser.
use http.Base.{
  take-length, ℕ, ◌+◌, ◌≤◌, ◌≡◌, ◌≢◌, refl, ◌∙◌, ap, sym, [], ◌∷◌, ◌++◌, Bytes, false, some, none,
  arith, length, All, le→ltb, ◌==◌, append-nil, find, find_str, starts_with, before,
}
use http.Ascii.{is_ows, trim_ows}
use http.Ascii.Trim.{StartsSolid, EndsSolid, trim_ows_pad}
use http.Parser.{RequestParser, refuse_if, refuse_none}
use http.Parser.Numbers.{hex_value}
use http.Parser.Numbers.Lengths.{IsHex, hex_number, hex_loop_iff}
use http.Parser.Framing.{start_chunk, parse_chunk_size}
use http.Parser.Feed.{crlf, go_on, at_chunk_size}

IsHex-plain : (c : ℕ) → IsHex c → (is_ows c ≡ false) × ((13 == c) ≡ false) × ((c == b';') ≡ false)
unfolding hex_value
IsHex-plain c h = ground (arith, h)

find_str_line : (s t : Bytes) → All IsHex s → find_str crlf (s ++ (crlf ++ t)) ≡ some (length s)
unfolding find_str starts_with
find_str_line [] t h = refl
find_str_line (c ∷ s) t h = rw ((IsHex-plain c h.0).1, find_str_line s t h.1) refl

find-none : (s : Bytes) → All IsHex s → find b';' s ≡ none
unfolding find
find-none [] h = refl
find-none (c ∷ s) h = rw ((IsHex-plain c h.0).2, find-none s h.1) refl

StartsSolid-IsHex : (s : Bytes) → All IsHex s → StartsSolid s
StartsSolid-IsHex [] h = tt
StartsSolid-IsHex (c ∷ s) h = (IsHex-plain c h.0).0

EndsSolid-IsHex : (s : Bytes) → All IsHex s → EndsSolid s
EndsSolid-IsHex [] h = tt
EndsSolid-IsHex (c ∷ []) h = (IsHex-plain c h.0).0
EndsSolid-IsHex (c ∷ d ∷ s) h = EndsSolid-IsHex (d ∷ s) h.1

trim_ows-IsHex : (s : Bytes) → All IsHex s → trim_ows s ≡ s
trim_ows-IsHex s h =
    ap trim_ows (sym (append-nil s))
    ∙ trim_ows_pad [] s [] tt tt (StartsSolid-IsHex s h) (EndsSolid-IsHex s h)

parse_chunk_size_hex :
    (p : RequestParser) (s : Bytes)
    → All IsHex s
    → s ≢ []
    → length s ≤ 16
    → parse_chunk_size p s ≡ start_chunk p (hex_number s)
unfolding parse_chunk_size refuse_if refuse_none
parse_chunk_size_hex p [] h n l = absurd (n refl)
parse_chunk_size_hex p (c ∷ s) h n l =
    rw
      (
        find-none (c ∷ s) h,
        before,
        trim_ows-IsHex (c ∷ s) h,
        le→ltb 16 (length (c ∷ s)) l,
        (hex_loop_iff (c ∷ s) (hex_number (c ∷ s)) l).1 (h, refl),
      )
      refl

pub at_chunk_size_hex :
    (p : RequestParser) (s t : Bytes)
    → All IsHex s
    → s ≢ []
    → length s ≤ 16
    → length s ≤ p.limits.max_chunk_line
    → at_chunk_size p (s ++ (crlf ++ t)) ≡ go_on 0 (length s + 2) (start_chunk p (hex_number s))
unfolding at_chunk_size
at_chunk_size_hex p s t h n l m =
    rw
      (
        at_chunk_size,
        find_str_line s t h,
        le→ltb p.limits.max_chunk_line (length s) m,
        take-length s (crlf ++ t),
        parse_chunk_size_hex p s h n l,
      )
      refl
