-- ===== src/Response/Declared.antt =====
-- What the head of a response declares of its framing and of the connection.
use http.Base.{
  ℕ, ◌≡◌, refl, List, [], ◌∷◌, ◌++◌, Bytes, codes, Bool, true, false, not, ◌&&◌, inl, inr,
  if◌then◌else◌, Bool-cases,
}
use http.Ascii.{iequals}
use http.Headers.{Headers, has}
use http.Response.{
  Response, HeadOptions, Framing, no_body, by_length, chunked, close_delimited, is_close_delimited,
  append_status, append_number, choose_framing, write_head,
}
use http.Response.Head.{
  values-append, values-kept, reserved, kept, server_fields, date_fields, framing_fields,
  connection_fields, head_fields, append_head-fields, render, values,
}

-- The values that the fields give for the three names by which a recipient finds the end of the
-- message and of the connection.
pub record Declares (fs : Headers) (sizes codings connection : List Bytes) : Type 0 where
  pub of_length : values (codes "Content-Length") fs ≡ sizes
  pub of_coding : values (codes "Transfer-Encoding") fs ≡ codings
  pub of_connection : values (codes "Connection") fs ≡ connection

Declares-append :
    (fs gs : Headers) {a b c x y z : List Bytes}
    → Declares fs a b c
    → Declares gs x y z
    → Declares (fs ++ gs) (a ++ x) (b ++ y) (c ++ z)
Declares-append fs gs d e = record {
  of_length = rw (values-append (codes "Content-Length") fs gs, d.of_length, e.of_length) refl;
  of_coding = rw (values-append (codes "Transfer-Encoding") fs gs, d.of_coding, e.of_coding) refl;
  of_connection =
      rw (values-append (codes "Connection") fs gs, d.of_connection, e.of_connection) refl;
}

Declares-kept : (fs : Headers) → Declares (kept fs) [] [] []
Declares-kept fs = record {
  of_length = values-kept (codes "Content-Length") fs reserved.0;
  of_coding = values-kept (codes "Transfer-Encoding") fs reserved.1;
  of_connection = values-kept (codes "Connection") fs reserved.2;
}

Declares-nil : Declares [] [] [] []
unfolding values
Declares-nil = record { of_length = refl; of_coding = refl; of_connection = refl }

Declares-server : (fs : Headers) → Declares (server_fields fs) [] [] []
unfolding values iequals
Declares-server fs = elim (Bool-cases (has fs (codes "Server"))) [
  | inl e ↦ rw e Declares-nil
  | inr e ↦ rw e (record { of_length = refl; of_coding = refl; of_connection = refl })
]

Declares-date : (date : Bytes) → Declares (date_fields date) [] [] []
unfolding values iequals
Declares-date [] = Declares-nil
Declares-date (c ∷ date) = record { of_length = refl; of_coding = refl; of_connection = refl }

-- The length that goes with a framing, its transfer coding, and what becomes of the connection.
abbrev pub declared_length : Framing → ℕ → List Bytes
declared_length by_length n = append_number [] n 10 ∷ []
declared_length _ n = []

abbrev pub declared_coding : Framing → List Bytes
declared_coding chunked = codes "chunked" ∷ []
declared_coding _ = []

abbrev pub declared_connection : Bool → Bool → List Bytes
declared_connection keep client =
    if not keep then codes "close" ∷ [] else if client then codes "keep-alive" ∷ [] else []

Declares-connection :
    (keep client : Bool)
    → Declares (connection_fields keep client) [] [] (declared_connection keep client)
unfolding values iequals
Declares-connection false client = record {
  of_length = refl;
  of_coding = refl;
  of_connection = refl;
}
Declares-connection true true = record { of_length = refl; of_coding = refl; of_connection = refl }
Declares-connection true false = Declares-nil

Declares-framing :
    (k : Framing) (n : ℕ) (keep client : Bool)
    → Declares
        (framing_fields k n ++ connection_fields keep client)
        (declared_length k n)
        (declared_coding k)
        (declared_connection keep client)
unfolding values iequals
Declares-framing by_length n keep client =
    Declares-append (framing_fields by_length n) (connection_fields keep client)
      (record { of_length = refl; of_coding = refl; of_connection = refl })
      (Declares-connection keep client)
Declares-framing chunked n keep client =
    Declares-append (framing_fields chunked n) (connection_fields keep client)
      (record { of_length = refl; of_coding = refl; of_connection = refl })
      (Declares-connection keep client)
Declares-framing no_body n keep client = Declares-connection keep client
Declares-framing close_delimited n keep client = Declares-connection keep client

-- `write_head` appends the status line, fields and the empty line. The fields are those that the handler
-- has set, but for those with the names Content-Length, Transfer-Encoding, Connection and Date, then a
-- Server field if it has set none, the Date, unless that is empty, and the fields of the framing that
-- it returns and of the connection. Whatever the handler has set, they hold one Content-Length, with the length in decimal, exactly where the framing
-- it returns is by length, the one Transfer-Encoding `chunked` exactly where it is chunked, and at most one Connection:
-- `close` where the connection is not kept or the body ends with it, otherwise `keep-alive` to an HTTP/1.0 client.
pub write_head-Declares {ℓ} :
    {P : Type ℓ} (out : Bytes) (res : Response P) (opts : HeadOptions)
    → let (k, n) = choose_framing res opts in
      let fs = head_fields res opts k n in
      ((write_head out res opts).0
        ≡ out ++ (append_status [] res.status ++ (render fs ++ codes "\r\n")))
      × ((write_head out res opts).1 ≡ k)
      × Declares fs
          (declared_length k n)
          (declared_coding k)
          (declared_connection (opts.keep_alive && not (is_close_delimited k)) opts.http10_client)
unfolding write_head
write_head-Declares out res opts =
    let (k, n) = choose_framing res opts in
    let keep = opts.keep_alive && not (is_close_delimited k) in
    (
      append_head-fields out res opts k n,
      refl,
      Declares-append (kept res.headers) _ (Declares-kept res.headers) (
          Declares-append (server_fields res.headers) _ (Declares-server res.headers) (
            Declares-append (date_fields opts.date) _ (Declares-date opts.date)
              (Declares-framing k n keep opts.http10_client))),
    )
