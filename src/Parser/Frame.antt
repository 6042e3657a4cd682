-- ===== src/Parser/Frame.antt =====
-- What `parse_request_line`, `parse_field_line`, `finish_headers` and `parse_chunk_size` leave alone.
use http.Base.{ℕ, Bool, true, false, ◌≡◌, refl, Bytes, Option, some, none, ◌==◌, if_both}
use http.Request.{ParseError}
use Prim.Native.String.{String}
use http.Parser.{RequestParser, error, refuse_if, refuse_none}
use http.Parser.Lines.{parse_parts, parse_request_line, parse_field_line, add_field}
use http.Parser.Framing.{frame_body, note_expect, finish_headers, start_chunk, parse_chunk_size}

-- The limits and the header count in bytes are as before, and a refusal is the error state.
pub record Parsed (p : RequestParser) (r : RequestParser × Bool) : Type 0 where
  pub limits_kept : r.0.limits ≡ p.limits
  pub bytes_kept : r.0.header_bytes ≡ p.header_bytes
  pub refused : r.1 ≡ false → r.0.state ≡ error

module _ (p : RequestParser) where
  refuse_if-Parsed :
      (test : Bool) (e : ParseError) (d : String) (r : RequestParser × Bool)
      → Parsed p r
      → Parsed p (refuse_if p test e d r)
  unfolding refuse_if
  refuse_if-Parsed true e d r h = record {
    limits_kept = refl;
    bytes_kept = refl;
    refused = λ _. refl;
  }
  refuse_if-Parsed false e d r h = h

  refuse_none-Parsed {ℓ} :
      {A : Type ℓ} (o : Option A) (e : ParseError) (d : String) (f : A → RequestParser × Bool)
      → ((a : A) → Parsed p (f a))
      → Parsed p (refuse_none p o e d f)
  unfolding refuse_none
  refuse_none-Parsed none e d f h = record {
    limits_kept = refl;
    bytes_kept = refl;
    refused = λ _. refl;
  }
  refuse_none-Parsed (some a) e d f h = h a

parse_parts-Parsed : (p : RequestParser) (m t v : Bytes) → Parsed p (parse_parts p m t v)
unfolding parse_parts
parse_parts-Parsed p m t v = refuse_if-Parsed p _ _ _ _ (
    refuse_if-Parsed p _ _ _ _ (
      refuse_if-Parsed p _ _ _ _ (
        refuse_if-Parsed p _ _ _ _ (
          refuse_none-Parsed p _ _ _ _
            λ q. record { limits_kept = refl; bytes_kept = refl; refused = λ h. cc }))))

pub parse_request_line-Parsed :
    (p : RequestParser) (line : Bytes) → Parsed p (parse_request_line p line)
unfolding parse_request_line
parse_request_line-Parsed p line =
    refuse_none-Parsed p _ _ _ _ λ s. parse_parts-Parsed p s.0 s.1 s.2

add_field-Parsed : (p : RequestParser) (b : Bool) (n v : Bytes) → Parsed p (add_field p b n v, true)
add_field-Parsed p true n v = record { limits_kept = refl; bytes_kept = refl; refused = λ h. cc }
add_field-Parsed p false n v = record { limits_kept = refl; bytes_kept = refl; refused = λ h. cc }

pub parse_field_line-Parsed :
    (p : RequestParser) (b : Bool) (line : Bytes) → Parsed p (parse_field_line p b line)
unfolding parse_field_line
parse_field_line-Parsed p b line = refuse_none-Parsed p _ _ _ _ λ colon.
    refuse_if-Parsed p _ _ _ _
      (refuse_if-Parsed p _ _ _ _ (refuse_if-Parsed p _ _ _ _ (add_field-Parsed p b _ _)))

frame_body-Parsed : (p : RequestParser) (te cl : Option Bytes) → Parsed p (frame_body p te cl)
unfolding frame_body
frame_body-Parsed p (some te) (some cl) = record {
  limits_kept = refl;
  bytes_kept = refl;
  refused = λ h. refl;
}
frame_body-Parsed p (some te) none = refuse_if-Parsed p _ _ _ _ (
    refuse_if-Parsed p _ _ _ _
      (record { limits_kept = refl; bytes_kept = refl; refused = λ h. cc }))
frame_body-Parsed p none (some cl) = refuse_none-Parsed p _ _ _ _ λ n.
    refuse_if-Parsed p _ _ _ _ (record { limits_kept = refl; bytes_kept = refl; refused = λ h. cc })
frame_body-Parsed p none none = record { limits_kept = refl; bytes_kept = refl; refused = λ h. cc }

note_expect-Parsed :
    (p : RequestParser) (r : RequestParser × Bool) → Parsed p r → Parsed p (note_expect r)
note_expect-Parsed p (q, true) h = record {
  limits_kept = h.limits_kept;
  bytes_kept = h.bytes_kept;
  refused = λ e. cc;
}
note_expect-Parsed p (q, false) h = h

pub finish_headers-Parsed : (p : RequestParser) → Parsed p (finish_headers p)
unfolding finish_headers
finish_headers-Parsed p =
    refuse_if-Parsed p _ _ _ _ (note_expect-Parsed p _ (frame_body-Parsed p _ _))

start_chunk-Parsed : (p : RequestParser) (n : ℕ) → Parsed p (start_chunk p n)
unfolding start_chunk
start_chunk-Parsed p n =
    if_both (Parsed p) (n == 0)
      (record { limits_kept = refl; bytes_kept = refl; refused = λ h. cc })
      (refuse_if-Parsed p _ _ _ _
        (record { limits_kept = refl; bytes_kept = refl; refused = λ h. cc }))

pub parse_chunk_size-Parsed :
    (p : RequestParser) (line : Bytes) → Parsed p (parse_chunk_size p line)
unfolding parse_chunk_size
parse_chunk_size-Parsed p line =
    refuse_if-Parsed p _ _ _ _ (refuse_none-Parsed p _ _ _ _ (start_chunk-Parsed p))
