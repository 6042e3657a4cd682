-- ===== src/Parser/Accepted/Heads.antt =====
-- The request line and the field lines keep the head of a request well formed.
use http.Base.{
  true, false, [], ◌∷◌, ◌++◌, ◌≡◌, refl, Option-cases, Bytes, codes, All, All-append, arith,
  Bool-cases, inl, inr,
}
use http.Ascii.{iequals, is_token}
use http.Headers.{Headers, add, find_field, update_field}
use http.Headers.Lookup.{mutations-Distinct}
use http.Parser.{RequestParser}
use http.Parser.Lines.{has_control, parse_parts, parse_request_line, parse_field, parse_field_line}
use http.Parser.Passing.{OnPass, refuse_if-OnPass, refuse_none-OnPass}
use http.Parser.Accepted.{IsClean, HeadOk}

has_control-append :
    (u v : Bytes) → has_control u ≡ false → has_control v ≡ false → has_control (u ++ v) ≡ false
unfolding has_control
has_control-append [] v h k = k
has_control-append (c ∷ u) v h k = ground (arith, has_control-append u v)

update-IsClean :
    (h : Headers) (name value : Bytes)
    → All IsClean h
    → has_control value ≡ false
    → All IsClean (update_field h name (λ old. (old ++ codes ", ") ++ value))
unfolding update_field
update-IsClean [] name value a c = tt
update-IsClean (f ∷ fs) name value a c = elim (Bool-cases (iequals f.0 name)) [
  | inl e ↦ rw e (
    (
      a.0.0,
      has_control-append (f.1 ++ codes ", ") value (has_control-append f.1 (codes ", ") a.0.1 comma)
          c,
    ),
    a.1,
  )
  | inr e ↦ rw e (a.0, update-IsClean fs name value a.1 c)
]
  where
    comma : has_control (codes ", ") ≡ false
    comma = unfold has_control in refl

add-IsClean :
    (h : Headers) (name value : Bytes)
    → All IsClean h
    → is_token name ≡ true
    → has_control value ≡ false
    → All IsClean (add h name value)
unfolding add
add-IsClean h name value a t c = elim (Option-cases (find_field h name)) [
  | inl e ↦ rw (e, add) (All-append IsClean h ((name, value) ∷ []) a ((t, c), tt))
  | inr (f, e) ↦ rw (e, add) (update-IsClean h name value a c)
]

-- An accepted request line makes the head well formed, and leaves the body.
pub parse_request_line-HeadOk :
    (p : RequestParser) (line : Bytes)
    → p.req.headers ≡ []
    → OnPass (λ q. HeadOk q.req × (q.req.body ≡ p.req.body)) (parse_request_line p line)
unfolding parse_request_line parse_parts
parse_request_line-HeadOk p line none_yet =
    let P = λ (q : RequestParser). HeadOk q.req × (q.req.body ≡ p.req.body) in
    refuse_none-OnPass P p _ _ _ _ λ s _. refuse_if-OnPass P p _ _ _ _ λ token.
      refuse_if-OnPass P p _ _ _ _ λ target. refuse_if-OnPass P p _ _ _ _ λ shape.
        refuse_if-OnPass P p _ _ _ _ λ version. refuse_none-OnPass P p _ _ _ _ λ q _. (
          record {
            method_ok = ground arith;
            target_ok = ground arith;
            major_ok = ground arith;
            minor_ok = ground arith;
            fields_ok = rw none_yet tt;
            fields_distinct = rw none_yet tt;
          },
          refl,
        )

-- An accepted field line of the header section keeps the head well formed, and leaves the body and the
-- state.
pub parse_field_line-HeadOk :
    (p : RequestParser) (line : Bytes)
    → HeadOk p.req
    → OnPass
        (λ q. HeadOk q.req × (q.req.body ≡ p.req.body) × (q.state ≡ p.state))
        (parse_field_line p true line)
unfolding parse_field_line parse_field
parse_field_line-HeadOk p line h =
    let P = λ (q : RequestParser). HeadOk q.req × (q.req.body ≡ p.req.body) × (q.state ≡ p.state) in
    refuse_none-OnPass P p _ _ _ _ λ colon _. refuse_if-OnPass P p _ _ _ _ λ token.
      refuse_if-OnPass P p _ _ _ _ λ control. refuse_if-OnPass P p _ _ _ _ λ host. (
        record {
          method_ok = h.method_ok;
          target_ok = h.target_ok;
          major_ok = h.major_ok;
          minor_ok = h.minor_ok;
          fields_ok = add-IsClean p.req.headers _ _ h.fields_ok (ground arith) control;
          fields_distinct = (mutations-Distinct p.req.headers _ _ h.fields_distinct).1;
        },
        refl,
        refl,
      )

-- A field line of the trailer section leaves all but the trailers.
pub parse_trailer_line_keeps :
    (p : RequestParser) (line : Bytes)
    → OnPass
        (λ q. q ≡ record p { req = record p.req { trailers = q.req.trailers } })
        (parse_field_line p false line)
unfolding parse_field_line parse_field
parse_trailer_line_keeps p line =
    let P =
      λ (q : RequestParser). q ≡ record p { req = record p.req { trailers = q.req.trailers } } in
    refuse_none-OnPass P p _ _ _ _ λ colon _.
      refuse_if-OnPass P p _ _ _ _
        λ token. refuse_if-OnPass P p _ _ _ _ λ control. refuse_if-OnPass P p _ _ _ _ λ host. refl
