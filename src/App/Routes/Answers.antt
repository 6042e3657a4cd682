-- ===== src/App/Routes/Answers.antt =====
-- What the routes of the application answer to any request.
use http.Base.{
  ℕ, ◌≤◌, ◌&&◌, List, [], ◌∷◌, ◌≡◌, refl, sym, ◌⊎◌, inl, inr, Option-cases, Bool-cases, none, some,
  Bytes, codes, ltb, ltb→le, length, drop, equal, All,
}
use http.Headers.{Headers}
use http.Request.{Request}
use http.Response.{Response, empty_response, text, plain_text}
use http.Router
use http.Router.{Route, Handled, returned, matches, dispatch, method_of, unserved}
use http.Router.Dispatch.{first_route, answer, dispatch-answer}
use http.Server.Producing.Contract.{Produces}
use http.StaticFiles.Beneath.{Beneath}
use http.StaticFiles.Serving
use http.StaticFiles.Serving.{Io, Stat, regular}
use http.StaticFiles.Serving.Answers.{Finished, Answered, serve-Answered}
use http.UniqueFd
use http.UniqueFd.{UniqueFd}
use http.App.{
  Producer, stream_producer, bytes_producer, pull, parse_u64, max_generated_bytes,
  max_stream_chunks, alphabet,
}
use http.App.Producers.{stream-Produces, bytes-Produces, length-alphabet}
use http.App.Routes.{
  App, handle_stream, handle_bytes, handle_echo, handle_static, install_routes, stream_usage,
  bytes_usage,
}

-- The statuses that are answered.
abbrev pub IsKnown : ℕ → Type 0
IsKnown status = (status ≡ 200) ⊎ ((status ≡ 400) ⊎ ((status ≡ 404) ⊎ (status ≡ 405)))

module _ {ℓ} {K : Type ℓ} (app : App K) where
  -- The length of a file that is sent is its size, and a producer gives a whole body, of the length
  -- that is declared, if one is.
  pub record WellFramed (res : Response Producer) : Type ℓ where
    pub known : IsKnown res.status
    pub file_sized :
        (fd : ℕ)
        → res.file ≡ some fd
        → (k : K) × (st : Stat) × (app.kernel.fstat k fd ≡ some st)
          × (st.st_mode ≡ regular)
          × (res.file_length ≡ st.st_size)
    pub body_sized :
        (p : Producer) (t : Headers)
        → res.producer ≡ some p
        → (body : Bytes) × (final : Headers) × Produces pull p t body final
          × ((n : ℕ) → res.stream_length ≡ some n → (length body ≡ n) × (n ≤ max_generated_bytes))

  -- A response without a file and a producer.
  plain-WellFramed :
      (res : Response Producer)
      → IsKnown res.status
      → res.file ≡ none
      → res.producer ≡ none
      → WellFramed res
  plain-WellFramed res s f p = record {
    known = s;
    file_sized = λ fd e. absurd (cc);
    body_sized = λ q t e. absurd (cc);
  }

  text-WellFramed :
      (status : ℕ) (body type : Bytes) → IsKnown status → WellFramed (text status body type)
  unfolding text
  text-WellFramed status body type s = plain-WellFramed (text status body type) s refl refl

  unserved-WellFramed : (allow : Bytes) → WellFramed (unserved allow)
  unfolding unserved text
  unserved-WellFramed [] = plain-WellFramed (unserved []) (inr (inr (inl refl))) refl refl
  unserved-WellFramed (c ∷ allow) =
      plain-WellFramed (unserved (c ∷ allow)) (inr (inr (inr refl))) refl refl

  handle_stream-WellFramed : (req : Request) → WellFramed (handle_stream req empty_response)
  unfolding handle_stream stream_usage
  handle_stream-WellFramed req = elim (Option-cases (parse_u64 (drop 8 req.path))) [
    | inl e ↦ rw (e, handle_stream) (text-WellFramed 400 _ _ (inr (inl refl)))
    | inr (n, e) ↦ elim (Bool-cases (ltb max_stream_chunks n)) [
      | inl f ↦ rw (e, handle_stream, f) (text-WellFramed 400 _ _ (inr (inl refl)))
      | inr f ↦
          rw (e, handle_stream, f)
            (record {
              known = inl refl;
              file_sized = λ fd h. absurd (cc);
              body_sized = λ p t h.
                  let same : p ≡ stream_producer 0 n 0 = cc in
                  rw same (_, _, stream-Produces n t, λ m g. absurd (cc));
            })
    ]
  ]

  handle_bytes-WellFramed : (req : Request) → WellFramed (handle_bytes req empty_response)
  unfolding handle_bytes bytes_usage
  handle_bytes-WellFramed req = elim (Option-cases (parse_u64 (drop 7 req.path))) [
    | inl e ↦ rw (e, handle_bytes) (text-WellFramed 400 _ _ (inr (inl refl)))
    | inr (n, e) ↦ elim (Bool-cases (ltb max_generated_bytes n)) [
      | inl f ↦ rw (e, handle_bytes, f) (text-WellFramed 400 _ _ (inr (inl refl)))
      | inr f ↦
          rw (e, handle_bytes, f)
            (record {
              known = inl refl;
              file_sized = λ fd h. absurd (cc);
              body_sized = λ p t h.
                  let same : p ≡ bytes_producer 0 n = cc in
                  rw same (
                    alphabet 0 n,
                    t,
                    bytes-Produces n t,
                    λ m g.
                        let total : n ≡ m = cc in
                        rw (sym total) (length-alphabet 0 n, ltb→le max_generated_bytes n f),
                  );
            })
    ]
  ]

  Finished-WellFramed :
      (root : ℕ) (path : Bytes) (r : Response Producer × Io K)
      → Finished app.kernel root path empty_response r
      → WellFramed r.0
  unfolding text
  Finished-WellFramed root path r (inl e) =
      rw e (text-WellFramed 404 (codes "not found\n") plain_text (inr (inr (inl refl))))
  Finished-WellFramed root path r (inr (fd, st, at_path, described, kind, e)) = rw e (record {
    known = inl refl;
    file_sized =
        λ fd' h. let same : fd ≡ fd' = cc in (r.1.state, st, rw same at described, kind, refl);
    body_sized = λ p t h. absurd (cc);
  })

  Answered-WellFramed :
      (root : ℕ) (path : Bytes) (r : Response Producer × Io K)
      → Answered app.kernel root path empty_response r
      → WellFramed r.0
  unfolding text
  Answered-WellFramed root path r (inl (e, f)) =
      rw f (text-WellFramed 400 (codes "invalid path\n") plain_text (inr (inl refl)))
  Answered-WellFramed root path r (inr (out, served, e, b, which, earlier, asked, f)) =
      Finished-WellFramed root served r f

  absent :
      (req : Request)
      → WellFramed (Serving.serve app.kernel none (drop 8 req.path) empty_response app.io).0
  unfolding Serving.serve text Serving.replace UniqueFd.move_assign UniqueFd.reset UniqueFd.release
  absent req = plain-WellFramed _ (inr (inr (inl refl))) refl refl

  handle_static-WellFramed :
      (req : Request) → All Beneath app.io.asked → WellFramed (handle_static app req empty_response)
  unfolding handle_static
  handle_static-WellFramed req all = by_root app.files
    where
      by_root :
          (root : UniqueFd)
          → WellFramed (Serving.serve app.kernel root (drop 8 req.path) empty_response app.io).0
      by_root none = absent req
      by_root (some root) =
          Answered-WellFramed root (drop 8 req.path)
            (Serving.serve app.kernel (some root) (drop 8 req.path) empty_response app.io)
            (serve-Answered app.kernel root (drop 8 req.path) empty_response app.io all).0

  abbrev Answers : Route Producer → Type ℓ
  Answers r = (req : Request) → WellFramed (Router.serve r req empty_response)

  first_route-Answers :
      (rs : List (Route Producer)) (method path : Bytes) (allow : Bytes) (req : Request)
      → All Answers rs
      → WellFramed (answer (first_route rs method path) allow req empty_response)
  unfolding first_route
  first_route-Answers [] method path allow req h = unserved-WellFramed allow
  first_route-Answers (r ∷ rs) method path allow req h =
      elim (Bool-cases (matches r path && equal r.method method)) [
        | inl e ↦ rw e (h.0 req)
        | inr e ↦ rw e (first_route-Answers rs method path allow req h.1)
      ]

  install_routes-Answers : All Beneath app.io.asked → All Answers (install_routes app [])
  unfolding install_routes Router.add Router.add_prefix Router.serve handle_echo
  install_routes-Answers all = (
    λ req. text-WellFramed 200 _ _ (inl refl),
    (
      λ req. text-WellFramed 200 _ _ (inl refl),
      (
        λ req. text-WellFramed 200 _ _ (inl refl),
        (
          λ req. text-WellFramed 200 _ _ (inl refl),
          (
            λ req. text-WellFramed 200 _ _ (inl refl),
            (
              handle_stream-WellFramed,
              (handle_bytes-WellFramed, ((λ req. handle_static-WellFramed req all), tt)),
            ),
          ),
        ),
      ),
    ),
  )

  -- Whatever the request, the application's routes answer it with one of the statuses 200, 400, 404
  -- and 405. The length that goes with a file is its size as the kernel tells it, of a regular file;
  -- a producer gives a whole body, after finitely many calls, and where a length is declared, the body
  -- has that length, 2 ^ 30 at most.
  pub dispatch-WellFramed :
      (req : Request)
      → All Beneath app.io.asked
      → WellFramed (dispatch (install_routes app []) req empty_response)
  dispatch-WellFramed req all =
      let e = dispatch-answer (install_routes app []) req empty_response in
      rw e (
        first_route-Answers (install_routes app []) (method_of req) req.path _ req
          (install_routes-Answers all))
