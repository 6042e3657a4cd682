-- ===== src/Response/Head.antt =====
-- The fields of the head that `write_head` writes.
use http.Base.{
  ℕ, ◌≡◌, refl, ◌∙◌, ap, sym, List, [], ◌∷◌, ◌++◌, Bytes, codes, Bool, true, false, not, ◌&&◌, ◌||◌,
  inl, inr, arith, if◌then◌else◌, append_assoc, append-nil, Bool-cases,
}
use http.Ascii.{is_empty, iequals}
use http.Headers.{Headers, has}
use http.Response.{
  Response, HeadOptions, Framing, no_body, by_length, chunked, close_delimited, is_close_delimited,
  is_framing_header, append_field, append_headers, append_status, append_number, append_framing,
  append_connection, append_head,
}

-- Fields as they stand in a head.
unfoldable pub render : Headers → Bytes
render [] = []
render (f ∷ fs) = f.0 ++ (codes ": " ++ (f.1 ++ (codes "\r\n" ++ render fs)))

-- The values of a field, in their order.
unfoldable pub values : Bytes → Headers → List Bytes
values name [] = []
values name (f ∷ fs) = if iequals f.0 name then f.1 ∷ values name fs else values name fs

render-append : (fs gs : Headers) → render (fs ++ gs) ≡ render fs ++ render gs
unfolding render
render-append [] gs = refl
render-append (f ∷ fs) gs = rw (render-append fs gs) (simp append_assoc)

pub values-append :
    (name : Bytes) (fs gs : Headers) → values name (fs ++ gs) ≡ values name fs ++ values name gs
unfolding values
values-append name [] gs = refl
values-append name (f ∷ fs) gs = elim (Bool-cases (iequals f.0 name)) [
  | inl e ↦ rw e (ap (◌∷◌ f.1) (values-append name fs gs))
  | inr e ↦ rw e (values-append name fs gs)
]

append_field-render :
    (out name value : Bytes) → append_field out name value ≡ out ++ render ((name, value) ∷ [])
unfolding render
append_field-render out name value = simp append_assoc

-- The names that a handler cannot set.
abbrev pub reserved_names : List Bytes
reserved_names =
    codes "Content-Length" ∷ codes "Transfer-Encoding" ∷ codes "Connection" ∷ codes "Date" ∷ []

-- The name is one of those, in letters of either case.
abbrev pub is_one_of : Bytes → List Bytes → Bool
is_one_of s [] = false
is_one_of s (name ∷ names) = iequals s name || is_one_of s names

-- The fields of a response that are written as they are: those of no reserved name.
unfoldable pub kept : Headers → Headers
kept [] = []
kept (f ∷ fs) = if is_one_of f.0 reserved_names then kept fs else f ∷ kept fs

is_framing_header-is_one_of : (s : Bytes) → is_framing_header s ≡ is_one_of s reserved_names
unfolding is_framing_header
is_framing_header-is_one_of s = ground arith

append_headers-kept : (out : Bytes) (fs : Headers) → append_headers out fs ≡ out ++ render (kept fs)
unfolding append_headers kept render
append_headers-kept out [] = sym (append-nil out)
append_headers-kept out (f ∷ fs) = elim (Bool-cases (is_one_of f.0 reserved_names)) [
  | inl e ↦
      let skipped = is_framing_header-is_one_of f.0 ∙ e in
      rw (skipped, e) (append_headers-kept out fs)
  | inr e ↦
      let written = is_framing_header-is_one_of f.0 ∙ e in
      rw (written, e) (append_headers-kept (append_field out f.0 f.1) fs ∙ simp append_assoc)
]

-- A name that the head reserves for itself.
abbrev Reserved : Bytes → Type 0
Reserved name = (s : Bytes) → is_one_of s reserved_names ≡ false → iequals s name ≡ false

pub values-kept : (name : Bytes) (fs : Headers) → Reserved name → values name (kept fs) ≡ []
unfolding values kept
values-kept name [] h = refl
values-kept name (f ∷ fs) h = elim (Bool-cases (is_one_of f.0 reserved_names)) [
  | inl e ↦ rw e (values-kept name fs h)
  | inr e ↦ rw (e, h f.0 e) (values-kept name fs h)
]

pub reserved :
    Reserved (codes "Content-Length")
    × Reserved (codes "Transfer-Encoding")
    × Reserved (codes "Connection")
reserved = (λ s h. ground arith, λ s h. ground arith, λ s h. ground arith)

abbrev pub server_fields : Headers → Headers
server_fields fs =
    if not (has fs (codes "Server")) then (codes "Server", codes "httpd-cpp") ∷ [] else []

abbrev pub date_fields : Bytes → Headers
date_fields date = if not (is_empty date) then (codes "Date", date) ∷ [] else []

abbrev pub framing_fields : Framing → ℕ → Headers
framing_fields by_length n = (codes "Content-Length", append_number [] n 10) ∷ []
framing_fields chunked n = (codes "Transfer-Encoding", codes "chunked") ∷ []
framing_fields _ n = []

abbrev pub connection_fields : Bool → Bool → Headers
connection_fields keep client =
    if not keep
    then (codes "Connection", codes "close") ∷ []
    else if client
    then (codes "Connection", codes "keep-alive") ∷ []
    else []

append_server :
    (out : Bytes) (fs : Headers)
    → (if not (has fs (codes "Server")) then out ++ codes "Server: httpd-cpp\r\n" else out)
      ≡ out ++ render (server_fields fs)
unfolding render
append_server out fs = elim (Bool-cases (has fs (codes "Server"))) [
  | inl e ↦ rw e (sym (append-nil out))
  | inr e ↦ rw e refl
]

append_date :
    (out date : Bytes)
    → (if not (is_empty date) then append_field out (codes "Date") date else out)
      ≡ out ++ render (date_fields date)
unfolding render
append_date out [] = sym (append-nil out)
append_date out (c ∷ date) = append_field-render out (codes "Date") (c ∷ date)

append_framing-fields :
    (out : Bytes) (k : Framing) (n : ℕ)
    → append_framing out k n ≡ out ++ render (framing_fields k n)
unfolding render append_framing append_number
append_framing-fields out by_length n = simp append_assoc
append_framing-fields out chunked n = refl
append_framing-fields out no_body n = sym (append-nil out)
append_framing-fields out close_delimited n = sym (append-nil out)

append_connection-fields :
    (out : Bytes) (keep client : Bool)
    → append_connection out keep client ≡ out ++ render (connection_fields keep client)
unfolding render append_connection
append_connection-fields out false client = refl
append_connection-fields out true true = refl
append_connection-fields out true false = sym (append-nil out)

-- All fields of a head, with the framing and its length.
abbrev pub head_fields {ℓ} : {P : Type ℓ} → Response P → HeadOptions → Framing → ℕ → Headers
head_fields res opts k n =
    kept res.headers
    ++ (server_fields res.headers
        ++ (date_fields opts.date
            ++ (framing_fields k n
                ++ connection_fields (opts.keep_alive && not (is_close_delimited k))
                    opts.http10_client)))

append_status-render :
    (out : Bytes) (status : ℕ) → append_status out status ≡ out ++ append_status [] status
unfolding append_status append_number
append_status-render out status = simp append_assoc

regroup :
    (out s : Bytes) (a b c d e : Headers)
    → ((((((out ++ s) ++ render a) ++ render b) ++ render c) ++ render d) ++ render e)
        ++ codes "\r\n"
      ≡ out ++ (s ++ (render (a ++ (b ++ (c ++ (d ++ e)))) ++ codes "\r\n"))
regroup out s a b c d e = simp (append_assoc, render-append)

pub append_head-fields {ℓ} :
    {P : Type ℓ} (out : Bytes) (res : Response P) (opts : HeadOptions) (k : Framing) (n : ℕ)
    → append_head out res opts k n
      ≡ out ++ (append_status [] res.status ++ (render (head_fields res opts k n) ++ codes "\r\n"))
unfolding append_head
append_head-fields out res opts k n =
    let keep = opts.keep_alive && not (is_close_delimited k) in
    let a = append_headers-kept (append_status out res.status) res.headers in
    let b =
      append_server _ res.headers
      ∙ ap (λ x. x ++ render (server_fields res.headers))
          (a ∙ ap (λ x. x ++ render (kept res.headers)) (append_status-render out res.status)) in
    let c = append_date _ opts.date ∙ ap (λ x. x ++ render (date_fields opts.date)) b in
    let d = append_framing-fields _ k n ∙ ap (λ x. x ++ render (framing_fields k n)) c in
    let e =
      append_connection-fields _ keep opts.http10_client
      ∙ ap (λ x. x ++ render (connection_fields keep opts.http10_client)) d in
    ap (λ x. x ++ codes "\r\n") e
    ∙ regroup out (append_status [] res.status) (kept res.headers) (server_fields res.headers)
        (date_fields opts.date) (framing_fields k n) (connection_fields keep opts.http10_client)
