-- ===== src/Router.antt =====
-- The router: src/server/router.hpp and src/server/router.cpp.
pub mod Dispatch
pub mod Matching
pub mod Listing
pub mod Answered
use http.Base.{
  ℕ, Bool, true, false, not, List, [], ◌∷◌, ◌++◌, Option, none, some, Bytes, codes, if◌then◌else◌,
  length, take, equal, find_str,
}
use http.Ascii.{is_empty}
use http.Headers.{set}
use http.Request.{Request}
use http.Response.{Response, text, plain_text}

-- What a handler does: it leaves the response so, or it throws an exception with that message.
pub data Handled {ℓ} (P : Type ℓ) : Type ℓ where
  returned : Response P → Handled P
  thrown : Bytes → Handled P

-- `Router::Route`. The handlers are the application's.
pub record Route {ℓ} (P : Type ℓ) : Type ℓ where
  pub method : Bytes
  pub path : Bytes
  pub prefix : Bool
  pub handler : Request → Response P → Handled P

-- `Router::add` and `Router::add_prefix`.
unfoldable pub add {ℓ} :
    {P : Type ℓ}
    → List (Route P)
    → Bytes
    → Bytes
    → (Request → Response P → Handled P)
    → List (Route P)
add routes method path handler =
    routes ++ (record { method = method; path = path; prefix = false; handler = handler } ∷ [])

unfoldable pub add_prefix {ℓ} :
    {P : Type ℓ}
    → List (Route P)
    → Bytes
    → Bytes
    → (Request → Response P → Handled P)
    → List (Route P)
add_prefix routes method path handler =
    routes ++ (record { method = method; path = path; prefix = true; handler = handler } ∷ [])

-- `bool match`.
unfoldable pub matches {ℓ} : {P : Type ℓ} → Route P → Bytes → Bool
unfolding equal
matches r path = if r.prefix then equal (take (length r.path) path) r.path else equal path r.path

-- A HEAD is served as a GET.
unfoldable pub method_of : Request → Bytes
unfolding equal
method_of req = if equal req.method (codes "HEAD") then codes "GET" else req.method

-- The call of the handler.
unfoldable pub serve {ℓ} : {P : Type ℓ} → Route P → Request → Response P → Response P
unfolding text
serve r req res = elim (r.handler req res) [
  | returned served ↦ served
  | thrown what ↦ text 500 ((codes "internal error: " ++ what) ++ codes "\n") plain_text
]

-- The update of `allow` for a route of another method.
unfoldable pub allow_also : Bytes → Bytes → Bytes
unfolding find_str equal
allow_also allow method = elim (find_str method allow) [
  | some i ↦ allow
  | none ↦
      let listed = (if not (is_empty allow) then allow ++ codes ", " else allow) ++ method in
      if equal method (codes "GET") then listed ++ codes ", HEAD" else listed
]

-- What is answered where no route has served the request.
unfoldable pub unserved {ℓ} : {P : Type ℓ} → Bytes → Response P
unfolding text set
unserved {P} allow =
    if not (is_empty allow)
    then (let res : Response P = text 405 (codes "method not allowed\n") plain_text in
        record res { headers = set res.headers (codes "Allow") allow })
    else text 404 (codes "not found\n") plain_text

-- The loop over the routes.
unfoldable pub dispatch_loop {ℓ} :
    {P : Type ℓ} → List (Route P) → Bytes → Bytes → Request → Response P → Response P
unfolding matches serve allow_also unserved
dispatch_loop [] method allow req res = unserved allow
dispatch_loop (r ∷ rs) method allow req res = elim (matches r req.path) [
  | false ↦ dispatch_loop rs method allow req res
  | true ↦ elim (equal r.method method) [
    | true ↦ serve r req res
    | false ↦ dispatch_loop rs method (allow_also allow r.method) req res
  ]
]

unfoldable pub dispatch {ℓ} : {P : Type ℓ} → List (Route P) → Request → Response P → Response P
unfolding method_of dispatch_loop
dispatch routes req res = dispatch_loop routes (method_of req) [] req res
