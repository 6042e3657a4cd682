-- ===== src/Parser/Feed/Bodies.antt =====
-- The body that the parser holds never outgrows its limit.
use http.Base.{
  ℕ, ◌+◌, ◌*◌, ◌^◌, ◌≤◌, ◌<◌, Bool, true, false, ◌≡◌, refl, some, none, Option, Bytes, codes,
  length, arith, ◌==◌, if_both, if_each,
}
use http.Headers.{get}
use http.Parser.{State, RequestParser, request_line, headers, body, chunk_data, error}
use http.Parser.Lines.{parse_parts, parse_request_line, parse_field_line, parse_field, add_field}
use http.Parser.Framing.{
  frame_body, frame_chunked, frame_length, note_expect, finish_headers, start_chunk,
  parse_chunk_size,
}
use http.Parser.Passing.{OnPass, refuse_if-OnPass, refuse_none-OnPass}

-- What a body of that length with those bytes missing is allowed, in each state.
abbrev pub Room : State → (held missing limit : ℕ) → Type 0
Room request_line n k m = n ≡ 0
Room headers n k m = n ≡ 0
Room body n k m = n + k ≤ m
Room chunk_data n k m = n + k ≤ m
Room error n k m = Unit
Room _ n k m = n ≤ m

abbrev pub HasRoom : ℕ → RequestParser → Type 0
HasRoom m p = (p.limits.max_body_bytes ≡ m) × Room p.state (length p.req.body) p.remaining m

-- The body and the state are left alone.
abbrev pub Keeps : RequestParser → RequestParser → Type 0
Keeps p q = (q.req.body ≡ p.req.body) × (q.state ≡ p.state)

pub parse_request_line-Keeps :
    (p : RequestParser) (line : Bytes) → OnPass (Keeps p) (parse_request_line p line)
unfolding parse_request_line parse_parts
parse_request_line-Keeps p line = refuse_none-OnPass (Keeps p) p _ _ _ _ λ parts _.
    refuse_if-OnPass (Keeps p) p _ _ _ _ λ _. refuse_if-OnPass (Keeps p) p _ _ _ _ λ _.
      refuse_if-OnPass (Keeps p) p _ _ _ _ λ _.
        refuse_if-OnPass (Keeps p) p _ _ _ _
          λ _. refuse_none-OnPass (Keeps p) p _ _ _ _ λ _ _. (refl, refl)

pub parse_field_line-Keeps :
    (p : RequestParser) (b : Bool) (line : Bytes) → OnPass (Keeps p) (parse_field_line p b line)
unfolding parse_field_line parse_field
parse_field_line-Keeps p b line = refuse_none-OnPass (Keeps p) p _ _ _ _ λ colon _.
    refuse_if-OnPass (Keeps p) p _ _ _ _ λ _.
      refuse_if-OnPass (Keeps p) p _ _ _ _
        λ _. refuse_if-OnPass (Keeps p) p _ _ _ _ λ _. added b _ _
  where
    added : (b : Bool) (n v : Bytes) → Keeps p (add_field p b n v)
    added true n v = (refl, refl)
    added false n v = (refl, refl)

-- The limit of a parser, on top of what is known of its body.
abbrev pub Roomy : ℕ → RequestParser → Type 0
Roomy m q = Room q.state (length q.req.body) q.remaining m

frame_body-Roomy :
    (m : ℕ) (p : RequestParser) (te cl : Option Bytes)
    → p.limits.max_body_bytes ≡ m
    → length p.req.body ≡ 0
    → OnPass (Roomy m) (frame_body p te cl)
unfolding frame_body frame_chunked frame_length
frame_body-Roomy m p (some te) (some cl) e z = tt
frame_body-Roomy m p (some te) none e z =
    refuse_if-OnPass (Roomy m) p _ _ _ _ λ _. refuse_if-OnPass (Roomy m) p _ _ _ _ λ _. omega arith
frame_body-Roomy m p none (some cl) e z = refuse_none-OnPass (Roomy m) p _ _ _ _ λ n _.
    refuse_if-OnPass (Roomy m) p _ _ _ _ λ l.
      if_each (λ s. Room s (length p.req.body) n m) (n == 0) (λ _. omega arith) (λ _. ground arith)
frame_body-Roomy m p none none e z = omega arith

note_expect-Roomy :
    (m : ℕ) (r : RequestParser × Bool) → OnPass (Roomy m) r → OnPass (Roomy m) (note_expect r)
note_expect-Roomy m (q, true) h = h
note_expect-Roomy m (q, false) h = tt

pub finish_headers-Roomy :
    (m : ℕ) (p : RequestParser)
    → p.limits.max_body_bytes ≡ m
    → length p.req.body ≡ 0
    → OnPass (Roomy m) (finish_headers p)
unfolding finish_headers
finish_headers-Roomy m p e z = refuse_if-OnPass (Roomy m) p _ _ _ _ λ _.
    note_expect-Roomy m
      (frame_body p (get p.req.headers (codes "Transfer-Encoding"))
        (get p.req.headers (codes "Content-Length")))
      (frame_body-Roomy m p _ _ e z)

pub parse_chunk_size-Roomy :
    (m : ℕ) (p : RequestParser) (line : Bytes)
    → 2 * m < 2 ^ 64
    → p.limits.max_body_bytes ≡ m
    → length p.req.body ≤ m
    → OnPass (Roomy m) (parse_chunk_size p line)
unfolding parse_chunk_size start_chunk
parse_chunk_size-Roomy m p line w e h = refuse_if-OnPass (Roomy m) p _ _ _ _ λ _.
    refuse_none-OnPass (Roomy m) p _ _ _ _ λ n _.
      if_both (OnPass (Roomy m)) (n == 0) h (refuse_if-OnPass (Roomy m) p _ _ _ _ λ t. ground arith)
