-- ===== src/Response/Chunks.antt =====
-- The chunks that the server writes, read by its own parser.
use http.Base.{
  ℕ, ◌+◌, ◌^◌, ◌≤◌, ◌<◌, ◌≡◌, ◌≢◌, refl, ◌∙◌, ap, sym, List, [], ◌∷◌, ◌++◌, Bytes, some, arith,
  length, if◌then◌else◌, subst, append_assoc, append-nil, length-append,
}
use http.Ascii.{is_empty}
use http.Parser.{RequestParser, chunk_size, done}
use http.Parser.Feed.{feed}
use http.Parser.Feed.Halting.{Fed, feed_iff}
use http.Response.{append_number, append_chunk, append_last_chunk, append_trailers}
use http.Response.Rounds.{
  at_size, behind, chunk_before, last_chunk, chunk_rounds, last_chunk_rounds,
}

-- Successive calls of `append_chunk`.
unfoldable pub append_chunks : Bytes → List Bytes → Bytes
unfolding append_chunk
append_chunks out [] = out
append_chunks out (piece ∷ pieces) = append_chunks (append_chunk out piece) pieces

-- The pieces in one.
unfoldable pub joined : List Bytes → Bytes
joined [] = []
joined (piece ∷ pieces) = piece ++ joined pieces

-- The bytes of the chunks and of the last one.
stream : List Bytes → Bytes
stream [] = last_chunk
stream (piece ∷ pieces) =
    if is_empty piece then stream pieces else chunk_before piece (stream pieces)

append_chunk-stream :
    (out piece t : Bytes) → piece ≢ [] → append_chunk out piece ++ t ≡ out ++ chunk_before piece t
unfolding append_chunk append_number
append_chunk-stream out [] t n = absurd (n refl)
append_chunk-stream out (c ∷ piece) t n = simp append_assoc

append_chunk-nil : (out : Bytes) → append_chunk out [] ≡ out
unfolding append_chunk
append_chunk-nil out = refl

append_chunks-stream :
    (out : Bytes) (pieces : List Bytes)
    → append_last_chunk (append_chunks out pieces) [] ≡ out ++ stream pieces
unfolding append_chunks stream
append_chunks-stream out [] = unfold append_last_chunk append_trailers in simp append_assoc
append_chunks-stream out ([] ∷ pieces) = rw (append_chunk-nil out) (append_chunks-stream out pieces)
append_chunks-stream out ((c ∷ piece) ∷ pieces) =
    append_chunks-stream (append_chunk out (c ∷ piece)) pieces
    ∙ append_chunk-stream out (c ∷ piece) (stream pieces) (λ e. cc)

-- What lets the parser read the pieces behind a body of `n` bytes: its limits are not passed, and
-- none of its sums wraps.
pub record Readable (p : RequestParser) (n : ℕ) : Type 0 where
  pub line_fits : 16 ≤ p.limits.max_chunk_line
  pub trailer_fits : p.header_bytes + 2 ≤ p.limits.max_header_bytes
  pub trailer_small : p.header_bytes + 2 < 2 ^ 64
  pub body_fits : n ≤ p.limits.max_body_bytes
  pub body_small : n < 2 ^ 64

stream_rounds :
    (p : RequestParser) (b : Bytes) (pieces : List Bytes)
    → Readable p (length b + length (joined pieces))
    → Fed (at_size p b) (stream pieces) (behind p (b ++ joined pieces)) (length (stream pieces))
unfolding stream joined
stream_rounds p b [] r =
    subst (λ x. Fed (at_size p b) last_chunk (behind p x) 5) (sym (append-nil b))
      (last_chunk_rounds p b r.line_fits r.trailer_fits r.trailer_small)
stream_rounds p b ([] ∷ pieces) r = stream_rounds p b pieces r
stream_rounds p b ((c ∷ piece) ∷ pieces) r =
    let whole = length-append (c ∷ piece) (joined pieces) in
    let front = length-append b (c ∷ piece) in
    let rest = stream_rounds p (b ++ (c ∷ piece)) pieces (record {
      line_fits = r.line_fits;
      trailer_fits = r.trailer_fits;
      trailer_small = r.trailer_small;
      body_fits = omega (arith, r.body_fits);
      body_small = omega (arith, r.body_small);
    }) in
    chunk_rounds p (behind p (b ++ ((c ∷ piece) ++ joined pieces))) b (c ∷ piece) (stream pieces)
      ((λ e. cc), omega (arith, r.body_fits), omega (arith, r.body_small)) r.line_fits
      (subst
        (λ x.
          Fed (at_size p (b ++ (c ∷ piece))) (stream pieces) (behind p x) (length (stream pieces)))
        (append_assoc b (c ∷ piece) (joined pieces)) rest)

-- A body that is sent by `append_chunk`, piece after piece, and by `append_last_chunk` with no trailers
-- is read by the parser that stands at the size of a chunk: it uses all bytes, adds the pieces in
-- their order to the body, and is done, if its limits allow 16 digits on the line of a size, the body
-- and the line that ends the trailers, and if the body's length and `header_bytes` do not wrap.
pub feed-append_chunks :
    (p : RequestParser) (pieces : List Bytes)
    → p.state ≡ chunk_size
    → p.remaining ≡ 0
    → Readable p (length p.req.body + length (joined pieces))
    → let sent = append_last_chunk (append_chunks [] pieces) [] in
      feed p sent
      ≡ some (
        record p {
          req = record p.req { body = p.req.body ++ joined pieces };
          header_bytes = p.header_bytes + 2;
          state = done;
        },
        length sent,
      )
feed-append_chunks p pieces s z r =
    let e = append_chunks-stream [] pieces in
    let same : at_size p p.req.body ≡ p =
      ap (λ k. record p { state = k; remaining = 0 }) (sym s)
      ∙ ap (λ k. record p { remaining = k }) (sym z) in
    let last = behind p (p.req.body ++ joined pieces) in
    ap (feed p) e
    ∙ ap (λ x. feed x (stream pieces)) (sym same)
    ∙ (feed_iff (at_size p p.req.body) (stream pieces) last (length (stream pieces))).1
        (stream_rounds p p.req.body pieces r)
    ∙ ap (λ k. some (record last { remaining = k }, length (stream pieces))) (sym z)
    ∙ ap (λ x. some (record last { remaining = p.remaining }, length x)) (sym e)
