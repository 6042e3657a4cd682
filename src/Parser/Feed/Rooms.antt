-- ===== src/Parser/Feed/Rooms.antt =====
-- The room for the body in the rounds of `feed`: none of them outgrows it.
use http.Base.{
  ℕ, ◌+◌, ◌-◌, ◌*◌, ◌^◌, ◌≤◌, ◌<◌, Bool, true, false, [], ◌∷◌, ◌++◌, ◌≡◌, refl, ◌∙◌, ap, sym, subst,
  some, Option-cases, Bytes, length, take, length-append, length-take, arith, ◌==◌, ◌⊎◌, inl, inr,
  find_str, min, if_both, if_each, ltb,
}
use http.Parser.{
  State, RequestParser, request_line, headers, body, chunk_size, chunk_data, chunk_data_end,
  trailers, done, error, wrap,
}
use http.Parser.Lines.{parse_request_line, parse_field_line}
use http.Parser.Framing.{finish_headers, parse_chunk_size}
use http.Parser.Frame.{
  Parsed, parse_request_line-Parsed, parse_field_line-Parsed, finish_headers-Parsed,
  parse_chunk_size-Parsed,
}
use http.Parser.Passing.{OnPass}
use http.Parser.Feed.{
  Round, halt, next, go_on, crlf, enter_headers, on_request_line, at_request_line, on_field,
  on_header_line, at_headers, at_body, at_chunk_data_end, at_chunk_size, round_in, round, feed,
}
use http.Parser.Feed.Halting.{Fed, stops, goes, feed_iff}
use http.Parser.Feed.Bodies.{
  Room, HasRoom, Keeps, Roomy, parse_request_line-Keeps, parse_field_line-Keeps,
  finish_headers-Roomy, parse_chunk_size-Roomy,
}

abbrev pub YieldsRoom : ℕ → Round → Type 0
YieldsRoom m (halt n q) = HasRoom m q
YieldsRoom m (next n q) = HasRoom m q

in-Room :
    (m : ℕ) (s : State) (q : RequestParser)
    → q.state ≡ s
    → Room s (length q.req.body) q.remaining m
    → Roomy m q
in-Room m s q e h = subst (λ t. Room t (length q.req.body) q.remaining m) (sym e) h

go_on-YieldsRoom :
    (m : ℕ) (p : RequestParser) (n k : ℕ) (r : RequestParser × Bool)
    → p.limits.max_body_bytes ≡ m
    → Parsed p r
    → OnPass (Roomy m) r
    → YieldsRoom m (go_on n k r)
go_on-YieldsRoom m p n k (q, true) e h a = (ap (λ l. l.max_body_bytes) h.limits_kept ∙ e, a)
go_on-YieldsRoom m p n k (q, false) e h a =
    (ap (λ l. l.max_body_bytes) h.limits_kept ∙ e, in-Room m error q (h.refused refl) tt)

enter-YieldsRoom :
    (m : ℕ) (p : RequestParser) (n k : ℕ) (r : RequestParser × Bool)
    → p.limits.max_body_bytes ≡ m
    → length p.req.body ≡ 0
    → Parsed p r
    → OnPass (Keeps p) r
    → YieldsRoom m (go_on n k (enter_headers r))
enter-YieldsRoom m p n k (q, true) e z h a =
    (ap (λ l. l.max_body_bytes) h.limits_kept ∙ e, ap length a.0 ∙ z)
enter-YieldsRoom m p n k (q, false) e z h a =
    (ap (λ l. l.max_body_bytes) h.limits_kept ∙ e, in-Room m error q (h.refused refl) tt)

at_request_line-YieldsRoom :
    (m : ℕ) (p : RequestParser) (rest : Bytes)
    → HasRoom m p
    → length p.req.body ≡ 0
    → YieldsRoom m (at_request_line p rest)
unfolding at_request_line on_request_line
at_request_line-YieldsRoom m p rest r z = elim (Option-cases (find_str crlf rest)) [
  | inl e ↦ ground (arith, e, r.0)
  | inr (i, e) ↦ ground (
    arith,
    e,
    enter-YieldsRoom m p 0 (i + 2) (parse_request_line p (take i rest)) r.0 z
        (parse_request_line-Parsed p (take i rest)) (parse_request_line-Keeps p (take i rest)),
  )
]

Keeps-Roomy :
    (m : ℕ) (p : RequestParser) (r : RequestParser × Bool)
    → (p.state ≡ headers) ⊎ (p.state ≡ trailers)
    → Roomy m p
    → OnPass (Keeps p) r
    → OnPass (Roomy m) r
Keeps-Roomy m p (q, false) s h k = tt
Keeps-Roomy m p (q, true) (inl s) h k =
    let z : length p.req.body ≡ 0 = subst (λ t. Room t (length p.req.body) p.remaining m) s h in
    in-Room m headers q (k.1 ∙ s) (ap length k.0 ∙ z)
Keeps-Roomy m p (q, true) (inr s) h k =
    let z : length p.req.body ≤ m = subst (λ t. Room t (length p.req.body) p.remaining m) s h in
    let l : length q.req.body ≡ length p.req.body = ap length k.0 in
    in-Room m trailers q (k.1 ∙ s) (omega arith)

on_field-YieldsRoom :
    (m : ℕ) (p : RequestParser) (b : Bool) (line : Bytes) (n : ℕ)
    → (p.state ≡ headers) ⊎ (p.state ≡ trailers)
    → HasRoom m p
    → YieldsRoom m (on_field p b line n)
unfolding on_field
on_field-YieldsRoom m p b line n s r =
    let counted = record p { header_count = wrap (p.header_count + 1) } in
    if_both (YieldsRoom m) (ltb p.limits.max_header_count (wrap (p.header_count + 1))) (r.0, tt)
      (go_on-YieldsRoom m counted n n (parse_field_line counted b line) r.0
        (parse_field_line-Parsed counted b line)
        (Keeps-Roomy m counted (parse_field_line counted b line) s r.1
          (parse_field_line-Keeps counted b line)))

at_headers-YieldsRoom :
    (m : ℕ) (p : RequestParser) (rest : Bytes)
    → p.state ≡ headers
    → HasRoom m p
    → length p.req.body ≡ 0
    → YieldsRoom m (at_headers p true rest)
unfolding at_headers on_header_line
at_headers-YieldsRoom m p rest s r z = elim (Option-cases (find_str crlf rest)) [
  | inl e ↦ ground (arith, e, r.0, r.1)
  | inr (i, e) ↦
      let longer = record p { header_bytes = wrap (p.header_bytes + (i + 2)) } in
      ground (
        arith,
        e,
        r.0,
        go_on-YieldsRoom m longer (i + 2) (i + 2) (finish_headers longer) r.0
            (finish_headers-Parsed longer) (finish_headers-Roomy m longer r.0 z),
        on_field-YieldsRoom m longer true (take i rest) (i + 2) (inl s) r,
      )
]

at_trailers-YieldsRoom :
    (m : ℕ) (p : RequestParser) (rest : Bytes)
    → p.state ≡ trailers
    → HasRoom m p
    → length p.req.body ≤ m
    → YieldsRoom m (at_headers p false rest)
unfolding at_headers on_header_line
at_trailers-YieldsRoom m p rest s r z = elim (Option-cases (find_str crlf rest)) [
  | inl e ↦ ground (arith, e, r.0, r.1)
  | inr (i, e) ↦
      let longer = record p { header_bytes = wrap (p.header_bytes + (i + 2)) } in
      let finished : HasRoom m (record longer { state = done }) = (r.0, z) in
      ground (
        arith,
        e,
        r.0,
        finished,
        on_field-YieldsRoom m longer false (take i rest) (i + 2) (inr s) r,
      )
]

at_chunk_data_end-YieldsRoom :
    (m : ℕ) (p : RequestParser) (rest : Bytes)
    → HasRoom m p
    → length p.req.body ≤ m
    → YieldsRoom m (at_chunk_data_end p rest)
unfolding at_chunk_data_end
at_chunk_data_end-YieldsRoom m p rest r z = ground (arith, r.0, r.1)

at_chunk_size-YieldsRoom :
    (m : ℕ) (p : RequestParser) (rest : Bytes)
    → 2 * m < 2 ^ 64
    → HasRoom m p
    → length p.req.body ≤ m
    → YieldsRoom m (at_chunk_size p rest)
unfolding at_chunk_size
at_chunk_size-YieldsRoom m p rest w r z = elim (Option-cases (find_str crlf rest)) [
  | inl e ↦ ground (arith, e, r.0, r.1)
  | inr (i, e) ↦ ground (
    arith,
    e,
    r.0,
    go_on-YieldsRoom m p 0 (i + 2) (parse_chunk_size p (take i rest)) r.0
        (parse_chunk_size-Parsed p (take i rest))
        (parse_chunk_size-Roomy m p (take i rest) w r.0 z),
  )
]

-- A body and what follows it.
at_body-YieldsRoom :
    (m : ℕ) (p : RequestParser) (s following : State) (rest : Bytes)
    → p.state ≡ s
    → HasRoom m p
    → length p.req.body + p.remaining ≤ m
    → ((n k : ℕ) → n + k ≤ m → Room s n k m × Room following n 0 m)
    → YieldsRoom m (at_body p following rest)
unfolding at_body
at_body-YieldsRoom m p s following [] e r h room = r
at_body-YieldsRoom m p s following (c ∷ rest) e r h room =
    let n = min (length (c ∷ rest)) p.remaining in
    let l : length (p.req.body ++ take n (c ∷ rest)) + (p.remaining - n) ≤ m =
      omega (arith, length-append p.req.body (take n (c ∷ rest)), length-take n (c ∷ rest)) in
    (
      r.0,
      if_each (λ t. Room t (length (p.req.body ++ take n (c ∷ rest))) (p.remaining - n) m)
          ((p.remaining - n) == 0)
          (λ z.
            let none_left : p.remaining - n ≡ 0 = ground arith in
            subst (λ k. Room following (length (p.req.body ++ take n (c ∷ rest))) k m)
              (sym none_left) (room _ _ l).1)
          (λ z.
            subst (λ t. Room t (length (p.req.body ++ take n (c ∷ rest))) (p.remaining - n) m)
              (sym e) (room _ _ l).0),
    )

round_in-YieldsRoom :
    (m : ℕ) (s : State) (p : RequestParser) (rest : Bytes)
    → 2 * m < 2 ^ 64
    → p.state ≡ s
    → HasRoom m p
    → Room s (length p.req.body) p.remaining m
    → YieldsRoom m (round_in s p rest)
unfolding round_in
round_in-YieldsRoom m request_line p rest w e r h = at_request_line-YieldsRoom m p rest r h
round_in-YieldsRoom m headers p rest w e r h = at_headers-YieldsRoom m p rest e r h
round_in-YieldsRoom m trailers p rest w e r h = at_trailers-YieldsRoom m p rest e r h
round_in-YieldsRoom m body p rest w e r h =
    at_body-YieldsRoom m p body done rest e r h (λ n k l. (l, omega arith))
round_in-YieldsRoom m chunk_data p rest w e r h =
    at_body-YieldsRoom m p chunk_data chunk_data_end rest e r h (λ n k l. (l, omega arith))
round_in-YieldsRoom m chunk_data_end p rest w e r h = at_chunk_data_end-YieldsRoom m p rest r h
round_in-YieldsRoom m chunk_size p rest w e r h = at_chunk_size-YieldsRoom m p rest w r h
round_in-YieldsRoom m done p rest w e r h = r
round_in-YieldsRoom m error p rest w e r h = r

round-YieldsRoom :
    (m : ℕ) (p : RequestParser) (rest : Bytes)
    → 2 * m < 2 ^ 64
    → HasRoom m p
    → YieldsRoom m (round p rest)
round-YieldsRoom m p rest w r = round_in-YieldsRoom m p.state p rest w refl r r.1

Fed-HasRoom :
    {p q : RequestParser} {rest : Bytes} {n : ℕ} (m : ℕ)
    → 2 * m < 2 ^ 64
    → Fed p rest q n
    → HasRoom m p
    → HasRoom m q
Fed-HasRoom {p} {q} {rest} m w (stops e) r = rw e at (round-YieldsRoom m p rest w r)
Fed-HasRoom {p} {q} {rest} m w (goes n k e f j) r =
    Fed-HasRoom m w f (rw e at (round-YieldsRoom m p rest w r))

-- Whatever bytes come, the body that the parser holds, together with the bytes of it that it still
-- waits for, stays within the limit of the body, provided that twice the limit fits in 64 bits. So it
-- is for each chunk of a chunked body, whose size the client may choose.
pub feed-HasRoom :
    (m : ℕ) (p q : RequestParser) (rest : Bytes) (n : ℕ)
    → 2 * m < 2 ^ 64
    → HasRoom m p
    → feed p rest ≡ some (q, n)
    → HasRoom m q
feed-HasRoom m p q rest n w r e = Fed-HasRoom m w ((feed_iff p rest q n).0 e) r
