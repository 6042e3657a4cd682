-- ===== src/Parser/Accepted/Feeding.antt =====
-- `feed` keeps what is known of the request in each state.
use http.Base.{
  ℕ, ◌+◌, ◌-◌, Bool, true, false, [], ◌∷◌, ◌++◌, ◌≡◌, refl, ◌∙◌, some, Option-cases, Bytes, length,
  subst, sym, take, length-append, length-take, arith, ◌==◌, Bool-cases, inl, inr, find_str, min,
}
use http.Parser.{
  State, RequestParser, request_line, headers, body, chunk_size, chunk_data, chunk_data_end,
  trailers, done, error, wrap,
}
use http.Parser.Lines.{parse_request_line, parse_field_line}
use http.Parser.Framing.{finish_headers, parse_chunk_size}
use http.Parser.Frame.{
  Parsed, parse_request_line-Parsed, parse_field_line-Parsed, finish_headers-Parsed,
  parse_chunk_size-Parsed,
}
use http.Parser.Passing.{OnPass}
use http.Parser.Feed.{
  Round, halt, next, go_on, crlf, enter_headers, on_request_line, at_request_line, on_field,
  on_header_line, at_headers, at_body, at_chunk_data_end, at_chunk_size, round_in, round, feed,
}
use http.Parser.Feed.Halting.{Fed, stops, goes, feed_iff}
use http.Parser.Accepted.{HeadOk, HostOk, IsChunked, IsSized, InState, IsAccepted}
use http.Parser.Accepted.Heads.{
  parse_request_line-HeadOk, parse_field_line-HeadOk, parse_trailer_line_keeps,
}
use http.Parser.Accepted.Bodies.{
  HeadOk-other, IsChunked-other, IsSized-other, finish_headers-IsAccepted,
  parse_chunk_size-IsAccepted,
}

abbrev Yields : (RequestParser → Type 0) → Round → Type 0
Yields P (halt n q) = P q
Yields P (next n q) = P q

error-IsAccepted : (q : RequestParser) → q.state ≡ error → IsAccepted q
error-IsAccepted q e = subst (λ s. InState s q.req q.remaining) (sym e) tt

go_on-Yields :
    (p : RequestParser) (n k : ℕ) (r : RequestParser × Bool)
    → Parsed p r
    → OnPass IsAccepted r
    → Yields IsAccepted (go_on n k r)
go_on-Yields p n k (q, true) h a = a
go_on-Yields p n k (q, false) h a = error-IsAccepted q (h.refused refl)

enter-Yields :
    (p : RequestParser) (n k : ℕ) (r : RequestParser × Bool)
    → p.req.body ≡ []
    → Parsed p r
    → OnPass (λ q. HeadOk q.req × (q.req.body ≡ p.req.body)) r
    → Yields IsAccepted (go_on n k (enter_headers r))
enter-Yields p n k (q, true) b h a = (a.0, a.1 ∙ b)
enter-Yields p n k (q, false) b h a = error-IsAccepted q (h.refused refl)

at_request_line-Yields :
    (p : RequestParser) (rest : Bytes)
    → p.state ≡ request_line
    → IsAccepted p
    → (p.req.headers ≡ []) × (p.req.body ≡ [])
    → Yields IsAccepted (at_request_line p rest)
unfolding at_request_line on_request_line
at_request_line-Yields p rest s a (h, b) = elim (Option-cases (find_str crlf rest)) [
  | inl e ↦ ground (arith, e)
  | inr (i, e) ↦ ground (
    arith,
    e,
    enter-Yields p 0 (i + 2) (parse_request_line p (take i rest)) b
        (parse_request_line-Parsed p (take i rest)) (parse_request_line-HeadOk p (take i rest) h),
  )
]

in_state :
    (s : State) (q : RequestParser) → q.state ≡ s → InState s q.req q.remaining → IsAccepted q
in_state s q e h = subst (λ t. InState t q.req q.remaining) (sym e) h

field-Yields :
    (p : RequestParser) (n k : ℕ) (r : RequestParser × Bool)
    → p.state ≡ headers
    → p.req.body ≡ []
    → Parsed p r
    → OnPass (λ q. HeadOk q.req × (q.req.body ≡ p.req.body) × (q.state ≡ p.state)) r
    → Yields IsAccepted (go_on n k r)
field-Yields p n k (q, true) s b h a = in_state headers q (a.2 ∙ s) (a.0, a.1 ∙ b)
field-Yields p n k (q, false) s b h a = error-IsAccepted q (h.refused refl)

trailer-Yields :
    (p : RequestParser) (n k : ℕ) (r : RequestParser × Bool)
    → p.state ≡ trailers
    → HeadOk p.req × HostOk p.req × IsChunked p.req
    → Parsed p r
    → OnPass (λ q. q ≡ record p { req = record p.req { trailers = q.req.trailers } }) r
    → Yields IsAccepted (go_on n k r)
trailer-Yields p n k (q, true) s (h, host, c) _ a = subst IsAccepted (sym a) (
    in_state trailers (record p { req = record p.req { trailers = q.req.trailers } }) s
      (
        HeadOk-other p.req p.req.body q.req.trailers p.req.expect_continue h,
        host,
        IsChunked-other p.req p.req.body q.req.trailers p.req.expect_continue c,
      ))
trailer-Yields p n k (q, false) s c h a = error-IsAccepted q (h.refused refl)

on_field_header-Yields :
    (p : RequestParser) (line : Bytes) (n : ℕ)
    → p.state ≡ headers
    → HeadOk p.req
    → p.req.body ≡ []
    → Yields IsAccepted (on_field p true line n)
unfolding on_field
on_field_header-Yields p line n s h b =
    let counted = record p { header_count = wrap (p.header_count + 1) } in
    ground (
      arith,
      field-Yields counted n n (parse_field_line counted true line) s b
          (parse_field_line-Parsed counted true line) (parse_field_line-HeadOk counted line h),
    )

on_field_trailer-Yields :
    (p : RequestParser) (line : Bytes) (n : ℕ)
    → p.state ≡ trailers
    → HeadOk p.req × HostOk p.req × IsChunked p.req
    → Yields IsAccepted (on_field p false line n)
unfolding on_field
on_field_trailer-Yields p line n s h =
    let counted = record p { header_count = wrap (p.header_count + 1) } in
    ground (
      arith,
      trailer-Yields counted n n (parse_field_line counted false line) s h
          (parse_field_line-Parsed counted false line) (parse_trailer_line_keeps counted line),
    )

at_headers-Yields :
    (p : RequestParser) (rest : Bytes)
    → p.state ≡ headers
    → IsAccepted p
    → HeadOk p.req × (p.req.body ≡ [])
    → Yields IsAccepted (at_headers p true rest)
unfolding at_headers on_header_line
at_headers-Yields p rest s a (h, b) = elim (Option-cases (find_str crlf rest)) [
  | inl e ↦ ground (arith, e)
  | inr (i, e) ↦
      let longer = record p { header_bytes = wrap (p.header_bytes + (i + 2)) } in
      ground (
        arith,
        e,
        go_on-Yields longer (i + 2) (i + 2) (finish_headers longer) (finish_headers-Parsed longer)
            (finish_headers-IsAccepted longer h b),
        on_field_header-Yields longer (take i rest) (i + 2) s h b,
      )
]

at_trailers-Yields :
    (p : RequestParser) (rest : Bytes)
    → p.state ≡ trailers
    → IsAccepted p
    → HeadOk p.req × HostOk p.req × IsChunked p.req
    → Yields IsAccepted (at_headers p false rest)
unfolding at_headers on_header_line
at_trailers-Yields p rest s a (h, host, c) = elim (Option-cases (find_str crlf rest)) [
  | inl e ↦ ground (arith, e)
  | inr (i, e) ↦
      let longer = record p { header_bytes = wrap (p.header_bytes + (i + 2)) } in
      let finished : IsAccepted (record longer { state = done }) = (h, host, inr (inr c)) in
      ground
        (arith, e, finished, on_field_trailer-Yields longer (take i rest) (i + 2) s (h, host, c))
]

at_chunk_size-Yields :
    (p : RequestParser) (rest : Bytes)
    → IsAccepted p
    → HeadOk p.req × HostOk p.req × IsChunked p.req
    → Yields IsAccepted (at_chunk_size p rest)
unfolding at_chunk_size
at_chunk_size-Yields p rest a (h, host, c) = elim (Option-cases (find_str crlf rest)) [
  | inl e ↦ ground (arith, e)
  | inr (i, e) ↦ ground (
    arith,
    e,
    go_on-Yields p 0 (i + 2) (parse_chunk_size p (take i rest))
        (parse_chunk_size-Parsed p (take i rest))
        (parse_chunk_size-IsAccepted p (take i rest) h host c),
  )
]

at_chunk_data_end-Yields :
    (p : RequestParser) (rest : Bytes)
    → IsAccepted p
    → HeadOk p.req × HostOk p.req × IsChunked p.req
    → Yields IsAccepted (at_chunk_data_end p rest)
unfolding at_chunk_data_end
at_chunk_data_end-Yields p rest a c =
    let sized : IsAccepted (record p { state = chunk_size }) = c in ground (arith, sized)

-- A body and what it lacks, before and after `n` bytes of it are read.
body_sizes :
    (held rest : Bytes) (n missing : ℕ)
    → n ≡ min (length rest) missing
    → length (held ++ take n rest) + (missing - n) ≡ length held + missing
body_sizes held rest n missing e =
    omega (arith, length-append held (take n rest), length-take n rest)

sized_body-Yields :
    (p : RequestParser) (rest : Bytes)
    → p.state ≡ body
    → IsAccepted p
    → HeadOk p.req × HostOk p.req × IsSized p.req (length p.req.body + p.remaining)
    → Yields IsAccepted (at_body p done rest)
unfolding at_body
sized_body-Yields p [] s a h = a
sized_body-Yields p (c ∷ rest) s a (h, host, sized) =
    let n = min (length (c ∷ rest)) p.remaining in
    let held = p.req.body ++ take n (c ∷ rest) in
    let sizes = body_sizes p.req.body (c ∷ rest) n p.remaining refl in
    let h' = HeadOk-other p.req held p.req.trailers p.req.expect_continue h in
    let keep = λ (m : ℕ) (e : m ≡ length p.req.body + p.remaining).
      IsSized-other p.req held p.req.trailers p.req.expect_continue m e sized in
    elim (Bool-cases ((p.remaining - n) == 0)) [
      | inl e ↦ rw e (h', host, inr (inl (keep (length held) (ground (arith, sizes, e)))))
      | inr e ↦ rw e (
          in_state body
            (record p { req = record p.req { body = held }; remaining = p.remaining - n }) s
            (h', host, keep (length held + (p.remaining - n)) sizes))
    ]

chunked_body-Yields :
    (p : RequestParser) (rest : Bytes)
    → p.state ≡ chunk_data
    → IsAccepted p
    → HeadOk p.req × HostOk p.req × IsChunked p.req
    → Yields IsAccepted (at_body p chunk_data_end rest)
unfolding at_body
chunked_body-Yields p [] s a h = a
chunked_body-Yields p (c ∷ rest) s a (h, host, coded) =
    let n = min (length (c ∷ rest)) p.remaining in
    let held = p.req.body ++ take n (c ∷ rest) in
    let h' = HeadOk-other p.req held p.req.trailers p.req.expect_continue h in
    let coded' = IsChunked-other p.req held p.req.trailers p.req.expect_continue coded in
    elim (Bool-cases ((p.remaining - n) == 0)) [
      | inl e ↦ rw e (h', host, coded')
      | inr e ↦ rw e (
          in_state chunk_data
            (record p { req = record p.req { body = held }; remaining = p.remaining - n }) s
            (h', host, coded'))
    ]

round_in-Yields :
    (s : State) (p : RequestParser) (rest : Bytes)
    → p.state ≡ s
    → IsAccepted p
    → InState s p.req p.remaining
    → Yields IsAccepted (round_in s p rest)
unfolding round_in
round_in-Yields request_line p rest e a h = at_request_line-Yields p rest e a h
round_in-Yields headers p rest e a h = at_headers-Yields p rest e a h
round_in-Yields trailers p rest e a h = at_trailers-Yields p rest e a h
round_in-Yields body p rest e a h = sized_body-Yields p rest e a h
round_in-Yields chunk_data p rest e a h = chunked_body-Yields p rest e a h
round_in-Yields chunk_data_end p rest e a h = at_chunk_data_end-Yields p rest a h
round_in-Yields chunk_size p rest e a h = at_chunk_size-Yields p rest a h
round_in-Yields done p rest e a h = a
round_in-Yields error p rest e a h = a

round-Yields : (p : RequestParser) (rest : Bytes) → IsAccepted p → Yields IsAccepted (round p rest)
round-Yields p rest a = round_in-Yields p.state p rest refl a a

Fed-IsAccepted :
    {p q : RequestParser} {rest : Bytes} {n : ℕ} → Fed p rest q n → IsAccepted p → IsAccepted q
Fed-IsAccepted {p} {q} {rest} (stops e) a = rw e at (round-Yields p rest a)
Fed-IsAccepted {p} {q} {rest} (goes n m e f k) a =
    Fed-IsAccepted f (rw e at (round-Yields p rest a))

-- Whatever bytes come, `feed` keeps this of the request: once its request line is read, the method is
-- a token, the target holds no blank and no control byte, and the version is 1.0 or 1.1; every
-- header field has a token for its name and no control byte in its value, and no two names agree
-- without case. Once the header section is read, a request of HTTP/1.1 has a Host field, and its body
-- is delimited in one way: by Transfer-Encoding: chunked in a request of HTTP/1.1 with no
-- Content-Length, or by a Content-Length that is read as the length of the body (of the bytes held
-- and those still missing, while it is being read) with no Transfer-Encoding, or there is neither
-- field and no body.
pub feed-IsAccepted :
    (p q : RequestParser) (rest : Bytes) (n : ℕ)
    → IsAccepted p
    → feed p rest ≡ some (q, n)
    → IsAccepted q
feed-IsAccepted p q rest n a e = Fed-IsAccepted ((feed_iff p rest q n).0 e) a
