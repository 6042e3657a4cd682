-- ===== src/Response/Rounds.antt =====
-- The rounds of the parser's loop on one chunk, and on the last one.
use http.Base.{
  take-length, drop-length, ℕ, ◌+◌, ◌-◌, ◌%◌, ◌^◌, ◌≤◌, ◌<◌, ◌≡◌, ◌≢◌, refl, ◌∙◌, ap, sym, [], ◌∷◌,
  ◌++◌, Bytes, codes, true, false, arith, length, le→ltb, ◌==◌, drop, drop-drop, subst, find_str,
  starts_with, length-append, min, equal,
}
use http.Parser.{
  RequestParser, wrap, refuse_if, chunk_size, chunk_data, chunk_data_end, trailers, done,
}
use http.Parser.Numbers.{hex_value}
use http.Parser.Numbers.Lengths.{hex_number}
use http.Parser.Framing.{start_chunk}
use http.Parser.Feed.{
  next, crlf, go_on, round, round_in, at_body, at_chunk_data_end, at_headers, on_header_line,
}
use http.Parser.Feed.Halting.{Fed, stops, goes}
use http.Response.Digits.{hex_digits, hex_digits-written}
use http.Response.Sizes.{at_chunk_size_hex}

-- The parser at the start of a chunk, with a body that has been read.
abbrev pub at_size : RequestParser → Bytes → RequestParser
at_size p b = record p { req = record p.req { body = b }; remaining = 0; state = chunk_size }

-- What must hold of a piece for the parser to take it behind `n` bytes of body.
abbrev pub Admits : RequestParser → ℕ → Bytes → Type 0
Admits p n piece =
    (piece ≢ []) × (n + length piece ≤ p.limits.max_body_bytes) × (n + length piece < 2 ^ 64)

start_chunk_admitted :
    (p : RequestParser) (b piece : Bytes)
    → Admits p (length b) piece
    → start_chunk (at_size p b) (length piece)
      ≡ (record (at_size p b) { remaining = length piece; state = chunk_data }, true)
unfolding start_chunk refuse_if
start_chunk_admitted p b [] h = absurd (h.0 refl)
start_chunk_admitted p b (c ∷ piece) h =
    let z : (length (c ∷ piece) == 0) ≡ false = ground arith in
    rw
      (
        start_chunk,
        refuse_if,
        z,
        le→ltb p.limits.max_body_bytes (length (c ∷ piece)) (omega (arith, h.1)),
        le→ltb p.limits.max_body_bytes (wrap (length b + length (c ∷ piece)))
            (omega (arith, h.1, h.2)),
      )
      refl

at_body_whole :
    (p : RequestParser) (b piece t : Bytes)
    → piece ≢ []
    → at_body
        (record (at_size p b) { remaining = length piece; state = chunk_data })
        chunk_data_end
        (piece ++ t)
      ≡ next (length piece) (record (at_size p (b ++ piece)) { state = chunk_data_end })
unfolding at_body
at_body_whole p b [] t n = absurd (n refl)
at_body_whole p b (c ∷ piece) t n =
    let m : min (length ((c ∷ piece) ++ t)) (length (c ∷ piece)) ≡ length (c ∷ piece) =
      omega (arith, length-append (c ∷ piece) t) in
    let z : length (c ∷ piece) - length (c ∷ piece) ≡ 0 = omega arith in
    rw (m, z, take-length (c ∷ piece) t) refl

at_chunk_data_end-crlf :
    (p : RequestParser) (b t : Bytes)
    → at_chunk_data_end (record (at_size p b) { state = chunk_data_end }) (crlf ++ t)
      ≡ next 2 (at_size p b)
unfolding at_chunk_data_end equal
at_chunk_data_end-crlf p b t =
    rw (at_chunk_data_end, le→ltb (length (crlf ++ t)) 2 (omega arith)) (unfold equal in refl)

-- A chunk, and what follows it.
abbrev pub chunk_before : Bytes → Bytes → Bytes
chunk_before piece t = hex_digits (length piece) ++ (crlf ++ (piece ++ (crlf ++ t)))

drop-more : (s t : Bytes) (n : ℕ) → drop (length s + n) (s ++ t) ≡ drop n t
drop-more s t n = sym (drop-drop (length s) n (s ++ t)) ∙ ap (drop n) (drop-length s t)

-- A round, where it is known what it leaves of the data.
goes_to :
    {p q r : RequestParser} {rest left : Bytes} {k : ℕ} (n m : ℕ)
    → round p rest ≡ next n q
    → drop n rest ≡ left
    → Fed q left r m
    → k ≡ n + m
    → Fed p rest r k
goes_to {q = q} {r = r} n m e d f k = goes n m e (subst (λ x. Fed q x r m) (sym d) f) k

-- The three rounds of the loop on one chunk.
pub chunk_rounds :
    (p q : RequestParser) (b piece t : Bytes)
    → Admits p (length b) piece
    → 16 ≤ p.limits.max_chunk_line
    → Fed (at_size p (b ++ piece)) t q (length t)
    → Fed (at_size p b) (chunk_before piece t) q (length (chunk_before piece t))
unfolding round_in
chunk_rounds p q b piece t a m f =
    let (h, v, n, l) = hex_digits-written (length piece) (omega (arith, a.2)) in
    let s = hex_digits (length piece) in
    let r = piece ++ (crlf ++ t) in
    goes_to (length s + 2) (length r)
      (at_chunk_size_hex (at_size p b) s r h n l (omega arith)
        ∙ ap (λ k. go_on 0 (length s + 2) (start_chunk (at_size p b) k)) v
        ∙ ap (go_on 0 (length s + 2)) (start_chunk_admitted p b piece a))
      (drop-more s (crlf ++ r) 2)
      (goes_to (length piece) (2 + length t) (at_body_whole p b piece (crlf ++ t) a.0)
        (drop-length piece (crlf ++ t))
        (goes 2 (length t) (at_chunk_data_end-crlf p (b ++ piece) t) f refl)
        (omega (arith, length-append piece (crlf ++ t))))
      (omega (arith, length-append s (crlf ++ r)))

abbrev pub last_chunk : Bytes
last_chunk = codes "0\r\n\r\n"

-- The parser behind the last chunk.
abbrev pub behind : RequestParser → Bytes → RequestParser
behind p b = record (at_size p b) { state = done; header_bytes = p.header_bytes + 2 }

at_trailers_end :
    (p : RequestParser) (b : Bytes)
    → p.header_bytes + 2 ≤ p.limits.max_header_bytes
    → p.header_bytes + 2 < 2 ^ 64
    → at_headers (record (at_size p b) { state = trailers }) false crlf ≡ next 2 (behind p b)
unfolding at_headers on_header_line find_str starts_with
at_trailers_end p b h l =
    let w : (p.header_bytes + 2) % 2 ^ 64 ≡ p.header_bytes + 2 = omega arith in
    rw (w, le→ltb p.limits.max_header_bytes (p.header_bytes + 2) h) refl

pub last_chunk_rounds :
    (p : RequestParser) (b : Bytes)
    → 16 ≤ p.limits.max_chunk_line
    → p.header_bytes + 2 ≤ p.limits.max_header_bytes
    → p.header_bytes + 2 < 2 ^ 64
    → Fed (at_size p b) last_chunk (behind p b) 5
unfolding round_in hex_value hex_number start_chunk refuse_if
last_chunk_rounds p b m h l =
    goes 3 2
      (at_chunk_size_hex (at_size p b) (codes "0") crlf ((λ e. cc), tt) (λ e. cc) (omega arith)
        (omega arith))
      (goes 2 0 (at_trailers_end p b h l) (stops refl) refl) refl
