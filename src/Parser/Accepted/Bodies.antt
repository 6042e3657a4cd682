-- ===== src/Parser/Accepted/Bodies.antt =====
-- The end of the header section, and a chunk's size, keep what is known of the body.
use http.Base.{
  ℕ, Bool, true, false, [], ◌≡◌, refl, ◌∙◌, Option, some, none, Bytes, length, sym, ap, arith, ◌==◌,
  Bool-cases, inl, inr, if◌then◌else◌, if_both, ◌⊎◌,
}
use http.Headers.{Headers}
use http.Request.{Request}
use http.Parser.{
  State, RequestParser, request_line, headers, trailers, chunk_data, chunk_data_end, error, done,
  body, chunk_size,
}
use http.Parser.Framing.{
  frame_chunked, frame_length, frame_body, note_expect, finish_headers, start_chunk,
  parse_chunk_size,
}
use http.Parser.Numbers.{parse_content_length}
use http.Parser.Passing.{OnPass, refuse_if-OnPass, refuse_none-OnPass}
use http.Parser.Accepted.{
  HeadOk, HostOk, IsChunked, IsSized, IsBare, InState, IsAccepted, transfer_encoding,
  content_length,
}

-- What is known of the head does not depend on the body, the trailers and the expectation.
module _ (r : Request) (b : Bytes) (t : Headers) (e : Bool) where
  abbrev pub other : Request
  other = record r { body = b; trailers = t; expect_continue = e }

  pub HeadOk-other : HeadOk r → HeadOk other
  HeadOk-other h = record {
    method_ok = h.method_ok;
    target_ok = h.target_ok;
    major_ok = h.major_ok;
    minor_ok = h.minor_ok;
    fields_ok = h.fields_ok;
    fields_distinct = h.fields_distinct;
  }

  pub IsChunked-other : IsChunked r → IsChunked other
  IsChunked-other h = record {
    coding = h.coding;
    coded = h.coded;
    chunked = h.chunked;
    unsized = h.unsized;
    recent = h.recent;
  }

  pub IsSized-other : {n : ℕ} (m : ℕ) → m ≡ n → IsSized r n → IsSized other m
  IsSized-other m same h = record {
    digits = h.digits;
    declared = h.declared;
    read_as = h.read_as ∙ ap some (sym same);
    uncoded = h.uncoded;
  }

frame_chunked-IsAccepted :
    (p : RequestParser) (te : Bytes)
    → HeadOk p.req
    → HostOk p.req
    → transfer_encoding p.req ≡ some te
    → content_length p.req ≡ none
    → OnPass IsAccepted (frame_chunked p te)
unfolding frame_chunked
frame_chunked-IsAccepted p te h host coded unsized = refuse_if-OnPass IsAccepted p _ _ _ _ λ recent.
    refuse_if-OnPass IsAccepted p _ _ _ _ λ chunked. (
      h,
      host,
      record {
        coding = te;
        coded = coded;
        chunked = ground arith;
        unsized = unsized;
        recent = ground arith;
      },
    )

frame_length-IsAccepted :
    (p : RequestParser) (cl : Bytes)
    → HeadOk p.req
    → HostOk p.req
    → p.req.body ≡ []
    → transfer_encoding p.req ≡ none
    → content_length p.req ≡ some cl
    → OnPass IsAccepted (frame_length p cl)
unfolding frame_length
frame_length-IsAccepted p cl h host no_body uncoded sized =
    refuse_none-OnPass IsAccepted p _ _ _ _
      λ n read. refuse_if-OnPass IsAccepted p _ _ _ _ λ within. framed n read
  where
    sized_as : (n m : ℕ) → parse_content_length cl ≡ some n → m ≡ n → IsSized p.req m
    sized_as n m read e = record {
      digits = cl;
      declared = sized;
      read_as = read ∙ ap some (sym e);
      uncoded = uncoded;
    }

    empty : length p.req.body ≡ 0
    empty = ap length no_body

    framed :
        (n : ℕ)
        → parse_content_length cl ≡ some n
        → IsAccepted (record p { remaining = n; state = if n == 0 then done else body })
    framed n read = elim (Bool-cases (n == 0)) [
      | inl e ↦ rw e (h, host, inr (inl (sized_as n _ read (ground (arith, empty)))))
      | inr e ↦ rw e (h, host, sized_as n _ read (omega (arith, empty)))
    ]

frame_body-IsAccepted :
    (p : RequestParser) (te cl : Option Bytes)
    → HeadOk p.req
    → HostOk p.req
    → p.req.body ≡ []
    → transfer_encoding p.req ≡ te
    → content_length p.req ≡ cl
    → OnPass IsAccepted (frame_body p te cl)
unfolding frame_body
frame_body-IsAccepted p (some te) (some cl) h host b t c = tt
frame_body-IsAccepted p (some te) none h host b t c = frame_chunked-IsAccepted p te h host t c
frame_body-IsAccepted p none (some cl) h host b t c = frame_length-IsAccepted p cl h host b t c
frame_body-IsAccepted p none none h host b t c =
    (h, host, inl (record { uncoded = t; unsized = c; no_body = b }))

IsChunked-expect :
    (r : Request) (e : Bool)
    → HeadOk r × HostOk r × IsChunked r
    → let q = record r { expect_continue = e } in HeadOk q × HostOk q × IsChunked q
IsChunked-expect r e (h, host, c) =
    (HeadOk-other r r.body r.trailers e h, host, IsChunked-other r r.body r.trailers e c)

delimited_expect :
    (r : Request) (e : Bool)
    → IsBare r ⊎ (IsSized r (length r.body) ⊎ IsChunked r)
    → let q = record r { expect_continue = e } in
      IsBare q ⊎ (IsSized q (length q.body) ⊎ IsChunked q)
delimited_expect r e (inl b) =
    inl (record { uncoded = b.uncoded; unsized = b.unsized; no_body = b.no_body })
delimited_expect r e (inr (inl s)) = inr (inl (IsSized-other r r.body r.trailers e _ refl s))
delimited_expect r e (inr (inr c)) = inr (inr (IsChunked-other r r.body r.trailers e c))

InState-expect :
    (s : State) (r : Request) (k : ℕ) (e : Bool)
    → InState s r k
    → InState s (record r { expect_continue = e }) k
InState-expect request_line r k e h = h
InState-expect headers r k e h = (HeadOk-other r r.body r.trailers e h.0, h.1)
InState-expect body r k e h =
    (HeadOk-other r r.body r.trailers e h.0, h.1, IsSized-other r r.body r.trailers e _ refl h.2)
InState-expect chunk_size r k e h = IsChunked-expect r e h
InState-expect chunk_data r k e h = IsChunked-expect r e h
InState-expect chunk_data_end r k e h = IsChunked-expect r e h
InState-expect trailers r k e h = IsChunked-expect r e h
InState-expect done r k e (h, host, d) =
    (HeadOk-other r r.body r.trailers e h, host, delimited_expect r e d)
InState-expect error r k e h = tt

note_expect-IsAccepted :
    (r : RequestParser × Bool) → OnPass IsAccepted r → OnPass IsAccepted (note_expect r)
note_expect-IsAccepted (q, true) h = InState-expect q.state q.req q.remaining _ h
note_expect-IsAccepted (q, false) h = tt

pub finish_headers-IsAccepted :
    (p : RequestParser) → HeadOk p.req → p.req.body ≡ [] → OnPass IsAccepted (finish_headers p)
unfolding finish_headers
finish_headers-IsAccepted p h b = refuse_if-OnPass IsAccepted p _ _ _ _ λ host.
    note_expect-IsAccepted (frame_body p (transfer_encoding p.req) (content_length p.req))
      (frame_body-IsAccepted p _ _ h (λ e. ground arith) b refl refl)

pub parse_chunk_size-IsAccepted :
    (p : RequestParser) (line : Bytes)
    → HeadOk p.req
    → HostOk p.req
    → IsChunked p.req
    → OnPass IsAccepted (parse_chunk_size p line)
unfolding parse_chunk_size start_chunk
parse_chunk_size-IsAccepted p line h host c = refuse_if-OnPass IsAccepted p _ _ _ _ λ shape.
    refuse_none-OnPass IsAccepted p _ _ _ _ λ n read.
      if_both (OnPass IsAccepted) (n == 0) (h, host, c)
        (refuse_if-OnPass IsAccepted p _ _ _ _ λ within. (h, host, c))
