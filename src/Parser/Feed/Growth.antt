-- ===== src/Parser/Feed/Growth.antt =====
-- A round of `feed` over a longer input: a line that is found is found again, and a limit that is
-- passed is passed again.
use http.Base.{
  ℕ, ◌+◌, ◌^◌, ◌≤◌, ◌<◌, Bool, true, false, [], ◌∷◌, ◌++◌, ◌≡◌, refl, ◌∙◌, inl, inr, ◌⊎◌, some,
  arith, Bytes, Option-cases, length, length-append, take, find_str, find_str_bound,
  find_str-append, find_str-grown, take-append_of_le, if_both, ltb,
}
use http.Parser.{
  State, RequestParser, request_line, headers, body, chunk_size, chunk_data, chunk_data_end,
  trailers, done, error, wrap,
}
use http.Parser.Feed.{
  Round, halt, next, go_on, crlf, enter_headers, on_request_line, at_request_line, on_field,
  on_header_line, end_section, at_headers, at_body, at_chunk_data_end, at_chunk_size, round_in,
}
use http.Parser.Lines.{parse_request_line}
use http.Parser.Framing.{parse_chunk_size}
use http.Parser.Frame.{
  Parsed, parse_request_line-Parsed, parse_field_line-Parsed, finish_headers-Parsed,
  parse_chunk_size-Parsed,
}

-- The sums that the limits are compared with do not wrap, for that many bytes to come.
pub record SizesFit (p : RequestParser) (size : ℕ) : Type 0 where
  pub line_fits : p.limits.max_request_line + 1 < 2 ^ 64
  pub chunk_line_fits : p.limits.max_chunk_line + 1 < 2 ^ 64
  pub header_fits : p.header_bytes + size + 2 < 2 ^ 64

-- What a round that halts on the first piece does: it waits as it is, or it has failed.
abbrev pub Final : RequestParser → Round → Type 0
Final p (halt n q) =
    (((q ≡ p) × (n ≡ 0)) ⊎ (q.state ≡ error))
    × (q.limits ≡ p.limits)
    × (q.header_bytes ≤ p.header_bytes + n)
Final p (next n q) = (q.limits ≡ p.limits) × (q.header_bytes ≤ p.header_bytes + n)

go_on-Final :
    (p q : RequestParser) (n k : ℕ) (r : RequestParser × Bool)
    → Parsed q r
    → q.limits ≡ p.limits
    → q.header_bytes ≤ p.header_bytes + n
    → n ≤ k
    → Final p (go_on n k r)
go_on-Final p q n k (r, true) h l b j = (h.limits_kept ∙ l, omega (arith, h.bytes_kept))
go_on-Final p q n k (r, false) h l b j =
    (inr (h.refused refl), h.limits_kept ∙ l, omega (arith, h.bytes_kept))

enter_headers-Parsed :
    (p : RequestParser) (r : RequestParser × Bool) → Parsed p r → Parsed p (enter_headers r)
enter_headers-Parsed p (q, true) h = record {
  limits_kept = h.limits_kept;
  bytes_kept = h.bytes_kept;
  refused = λ e. cc;
}
enter_headers-Parsed p (q, false) h = h

pub at_request_line-Final : (p : RequestParser) (rest : Bytes) → Final p (at_request_line p rest)
unfolding at_request_line on_request_line
at_request_line-Final p rest = elim (Option-cases (find_str crlf rest)) [
  | inl e ↦ ground (arith, e)
  | inr (i, e) ↦ ground (
    arith,
    e,
    go_on-Final p p 0 (i + 2) (enter_headers (parse_request_line p (take i rest)))
        (enter_headers-Parsed p _ (parse_request_line-Parsed p (take i rest))),
  )
]

at_chunk_size-Final : (p : RequestParser) (rest : Bytes) → Final p (at_chunk_size p rest)
unfolding at_chunk_size
at_chunk_size-Final p rest = elim (Option-cases (find_str crlf rest)) [
  | inl e ↦ ground (arith, e)
  | inr (i, e) ↦ ground (
    arith,
    e,
    go_on-Final p p 0 (i + 2) (parse_chunk_size p (take i rest))
        (parse_chunk_size-Parsed p (take i rest)),
  )
]

end_section-Parsed : (p : RequestParser) (b : Bool) → Parsed p (end_section p b)
end_section-Parsed p true = finish_headers-Parsed p
end_section-Parsed p false = record { limits_kept = refl; bytes_kept = refl; refused = λ h. cc }

on_field-Final :
    (p q : RequestParser) (b : Bool) (line : Bytes) (n : ℕ)
    → q.limits ≡ p.limits
    → q.header_bytes ≤ p.header_bytes + n
    → Final p (on_field q b line n)
unfolding on_field
on_field-Final p q b line n l h =
    let counted = record q { header_count = wrap (q.header_count + 1) } in
    if_both (Final p) (ltb q.limits.max_header_count (wrap (q.header_count + 1))) (inr refl, l, h)
      (go_on-Final p counted n n _ (parse_field_line-Parsed counted b line) l h (omega arith))

at_headers-Final : (p : RequestParser) (b : Bool) (rest : Bytes) → Final p (at_headers p b rest)
unfolding at_headers on_header_line
at_headers-Final p b rest = elim (Option-cases (find_str crlf rest)) [
  | inl e ↦ ground (arith, e)
  | inr (i, e) ↦
      let longer = record p { header_bytes = wrap (p.header_bytes + (i + 2)) } in
      ground (
        arith,
        e,
        on_field-Final p longer b (take i rest) (i + 2) refl (omega arith),
        go_on-Final p longer (i + 2) (i + 2) (end_section longer b) (end_section-Parsed longer b)
            refl (omega arith) (omega arith),
      )
]

at_body-Final : (p : RequestParser) (s : State) (rest : Bytes) → Final p (at_body p s rest)
unfolding at_body
at_body-Final p s [] = (inl (refl, refl), refl, omega arith)
at_body-Final p s (c ∷ rest) = (refl, omega arith)

at_chunk_data_end-Final : (p : RequestParser) (rest : Bytes) → Final p (at_chunk_data_end p rest)
unfolding at_chunk_data_end
at_chunk_data_end-Final p rest = ground arith

pub round_in-Final :
    (s : State) (p : RequestParser) (rest : Bytes) → p.state ≡ s → Final p (round_in s p rest)
unfolding round_in
round_in-Final request_line p rest e = at_request_line-Final p rest
round_in-Final headers p rest e = at_headers-Final p true rest
round_in-Final trailers p rest e = at_headers-Final p false rest
round_in-Final body p rest e = at_body-Final p done rest
round_in-Final chunk_data p rest e = at_body-Final p chunk_data_end rest
round_in-Final chunk_data_end p rest e = at_chunk_data_end-Final p rest
round_in-Final chunk_size p rest e = at_chunk_size-Final p rest
round_in-Final done p rest e = (inl (refl, refl), refl, omega arith)
round_in-Final error p rest e = (inl (refl, refl), refl, omega arith)

-- A round over a longer input does what it did over the shorter one, unless that one made it wait.
abbrev pub Grown : RequestParser → (Bytes → Round) → Bytes → Bytes → Type 0
Grown p f a b = (f a ≡ halt 0 p) ⊎ (f (a ++ b) ≡ f a)

module _ (p : RequestParser) (a b : Bytes) (fits : SizesFit p (length a + length b)) where
  found : (i : ℕ) → find_str crlf a ≡ some i → find_str crlf (a ++ b) ≡ some i
  found i e = find_str-append crlf a b i e

  taken : (i : ℕ) → find_str crlf a ≡ some i → take i (a ++ b) ≡ take i a
  taken i e = take-append_of_le i a b (omega (arith, find_str_bound crlf a i e))

  pub at_request_line-Grown : Grown p (at_request_line p) a b
  unfolding at_request_line on_request_line
  at_request_line-Grown = elim (Option-cases (find_str crlf a)) [
    | inl e ↦ elim (Option-cases (find_str crlf (a ++ b))) [
      | inl e' ↦ ground (arith, e, e', length-append a b)
      | inr (i, e') ↦ ground (arith, e, e', find_str-grown crlf a b i e e')
    ]
    | inr (i, e) ↦ inr (ground (arith, e, found i e, taken i e))
  ]

  pub at_headers-Grown : (h : Bool) → Grown p (at_headers p h) a b
  unfolding at_headers on_header_line
  at_headers-Grown h = elim (Option-cases (find_str crlf a)) [
    | inl e ↦ elim (Option-cases (find_str crlf (a ++ b))) [
      | inl e' ↦ ground (arith, e, e', length-append a b)
      | inr (i, e') ↦ ground (
        arith,
        e,
        e',
        length-append a b,
        find_str-grown crlf a b i e e',
        find_str_bound crlf (a ++ b) i e',
      )
    ]
    | inr (i, e) ↦ inr (ground (arith, e, found i e, taken i e))
  ]

  pub at_chunk_size-Grown : Grown p (at_chunk_size p) a b
  unfolding at_chunk_size
  at_chunk_size-Grown = elim (Option-cases (find_str crlf a)) [
    | inl e ↦ elim (Option-cases (find_str crlf (a ++ b))) [
      | inl e' ↦ ground (arith, e, e', length-append a b)
      | inr (i, e') ↦ ground (arith, e, e', find_str-grown crlf a b i e e')
    ]
    | inr (i, e) ↦ inr (ground (arith, e, found i e, taken i e))
  ]

  pub at_chunk_data_end-Grown : Grown p (at_chunk_data_end p) a b
  unfolding at_chunk_data_end
  at_chunk_data_end-Grown = ground (arith, length-append a b, take-append_of_le 2 a b)
