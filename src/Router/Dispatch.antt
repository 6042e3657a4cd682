-- ===== src/Router/Dispatch.antt =====
-- Which route serves a request, and what is answered where none does.
use http.Base.{
  true, false, ◌&&◌, List, [], ◌∷◌, Option, none, some, Bytes, if◌then◌else◌, equal, ◌≡◌, refl, ◌∙◌,
  inl, inr, Bool-cases,
}
use http.Request.{Request}
use http.Response.{Response}
use http.Router.{Route, matches, method_of, serve, allow_also, unserved, dispatch_loop, dispatch}

-- The first route that matches the path and has the method.
unfoldable pub first_route {ℓ} : {P : Type ℓ} → List (Route P) → Bytes → Bytes → Option (Route P)
first_route [] method path = none
first_route (r ∷ rs) method path =
    if matches r path && equal r.method method then some r else first_route rs method path

-- The methods of the routes that match the path.
unfoldable pub allowed {ℓ} : {P : Type ℓ} → Bytes → List (Route P) → Bytes → Bytes
allowed allow [] path = allow
allowed allow (r ∷ rs) path =
    if matches r path then allowed (allow_also allow r.method) rs path else allowed allow rs path

module _ {ℓ} {P : Type ℓ} (r : Route P) (rs : List (Route P)) (method allow : Bytes) (req : Request)
    (res : Response P) where
  loop_elsewhere :
      matches r req.path ≡ false
      → dispatch_loop (r ∷ rs) method allow req res ≡ dispatch_loop rs method allow req res
  unfolding dispatch_loop
  loop_elsewhere m = rw (dispatch_loop, m) refl

  loop_other_method :
      matches r req.path ≡ true
      → equal r.method method ≡ false
      → dispatch_loop (r ∷ rs) method allow req res
        ≡ dispatch_loop rs method (allow_also allow r.method) req res
  unfolding dispatch_loop
  loop_other_method m q = rw (dispatch_loop, m, q) refl

  loop_serves :
      matches r req.path ≡ true
      → equal r.method method ≡ true
      → dispatch_loop (r ∷ rs) method allow req res ≡ serve r req res
  unfolding dispatch_loop
  loop_serves m q = rw (dispatch_loop, m, q) refl

-- What the loop answers, by the first route that serves the request.
abbrev pub answer {ℓ} : {P : Type ℓ} → Option (Route P) → Bytes → Request → Response P → Response P
answer (some r) allow req res = serve r req res
answer none allow req res = unserved allow

dispatch_loop-answer {ℓ} :
    {P : Type ℓ} (rs : List (Route P)) (method allow : Bytes) (req : Request) (res : Response P)
    → dispatch_loop rs method allow req res
      ≡ answer (first_route rs method req.path) (allowed allow rs req.path) req res
unfolding first_route allowed
dispatch_loop-answer [] method allow req res = unfold dispatch_loop in refl
dispatch_loop-answer (r ∷ rs) method allow req res = elim (Bool-cases (matches r req.path)) [
  | inr m ↦
      rw m
        (loop_elsewhere r rs method allow req res m ∙ dispatch_loop-answer rs method allow req res)
  | inl m ↦ elim (Bool-cases (equal r.method method)) [
    | inl q ↦ rw (m, q) (loop_serves r rs method allow req res m q)
    | inr q ↦
        rw (m, q)
          (loop_other_method r rs method allow req res m q
            ∙ dispatch_loop-answer rs method (allow_also allow r.method) req res)
  ]
]

-- `dispatch` answers by the first route that serves the request and by the list of the methods.
pub dispatch-answer {ℓ} :
    {P : Type ℓ} (rs : List (Route P)) (req : Request) (res : Response P)
    → dispatch rs req res
      ≡ answer (first_route rs (method_of req) req.path) (allowed [] rs req.path) req res
unfolding dispatch
dispatch-answer rs req res = dispatch_loop-answer rs (method_of req) [] req res
