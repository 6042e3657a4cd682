-- ===== src/Router/Answered.antt =====
-- What the router answers to a request: which handler serves it, and what is said where none does.
use http.Base.{
  true, List, [], ◌∷◌, ◌++◌, none, some, Bytes, codes, equal, equal_refl, ◌≡◌, ◌≢◌, refl, ◌∙◌, ap,
  sym, inl, inr, ◌⊎◌, Bool-cases, All,
}
use http.Ascii.{iequals}
use http.Headers.{get, set}
use http.Request.{Request}
use http.Response.{Response, text, plain_text}
use http.Router.{Route, Handled, returned, thrown, matches, method_of, serve, unserved, dispatch}
use http.Router.Dispatch.{first_route, dispatch-answer}
use http.Router.Matching.{Covers, equal-eq, matches_iff}
use http.Router.Listing.{Gathered, IsWritten, join, allowed-Gathered}

-- The method that a route must have: for a HEAD that is GET.
abbrev pub Wants : Request → Bytes → Type 0
Wants req m =
    ((req.method ≡ codes "HEAD") × (m ≡ codes "GET"))
    ⊎ ((req.method ≢ codes "HEAD") × (m ≡ req.method))

-- The route is one for the request.
abbrev pub Serves {ℓ} : {P : Type ℓ} → Request → Route P → Type 0
Serves req r = Covers r req.path × Wants req r.method

-- What the handler leaves, or a 500 where it throws.
abbrev pub Handles {ℓ} : {P : Type ℓ} → Handled P → Response P → Type ℓ
Handles (returned served) res = res ≡ served
Handles (thrown what) res =
    res ≡ text 500 (codes "internal error: " ++ (what ++ codes "\n")) plain_text

-- 404 where no method has been gathered, else 405 with the list in `Allow`.
abbrev pub Refuses {ℓ} : {P : Type ℓ} → List Bytes → Response P → Type 0
Refuses [] res = res.status ≡ 404
Refuses (m ∷ ms) res = (res.status ≡ 405) × (get res.headers (codes "Allow") ≡ some (join (m ∷ ms)))

method_of-Wants : (req : Request) → Wants req (method_of req)
unfolding method_of
method_of-Wants req = elim (Bool-cases (equal req.method (codes "HEAD"))) [
  | inl e ↦ rw (e, method_of) (inl (equal-eq req.method (codes "HEAD") e, refl))
  | inr e ↦
      rw (e, method_of)
        (inr (
          λ q.
              let same : equal req.method (codes "HEAD") ≡ true =
                ap (λ m. equal m (codes "HEAD")) q ∙ equal_refl (codes "HEAD") in
              absurd cc,
          refl,
        ))
]

Wants-method_of : (req : Request) (m : Bytes) → Wants req m → m ≡ method_of req
Wants-method_of req m w = elim w [
  | inl (h, e) ↦ elim (method_of-Wants req) [ inl (k, f) ↦ e ∙ sym f | inr (k, f) ↦ absurd (k h) ]
  | inr (h, e) ↦ elim (method_of-Wants req) [ inl (k, f) ↦ absurd (h k) | inr (k, f) ↦ e ∙ sym f ]
]

module _ {ℓ} {P : Type ℓ} (req : Request) where
  picked-Serves :
      (r : Route P)
      → matches r req.path ≡ true
      → equal r.method (method_of req) ≡ true
      → Serves req r
  picked-Serves r m q =
      let same = equal-eq r.method (method_of req) q in
      ((matches_iff r req.path).0 m, rw same (method_of-Wants req))

  Serves-picked :
      (r : Route P)
      → Serves req r
      → (matches r req.path ≡ true) × (equal r.method (method_of req) ≡ true)
  Serves-picked r (c, w) = (
    (matches_iff r req.path).1 c,
    ap (λ m. equal m (method_of req)) (Wants-method_of req r.method w) ∙ equal_refl (method_of req),
  )

  -- The first route of the request, and those before it.
  abbrev FirstOf : List (Route P) → Route P → Type ℓ
  FirstOf rs r =
      (before : List (Route P)) × (after : List (Route P)) × (rs ≡ before ++ (r ∷ after))
      × All (λ x. ¬ Serves req x) before
      × Serves req r

  more-FirstOf :
      (x r : Route P) (rs : List (Route P)) → ¬ Serves req x → FirstOf rs r → FirstOf (x ∷ rs) r
  more-FirstOf x r rs n (before, after, e, all, s) = (x ∷ before, after, ap (◌∷◌ x) e, (n, all), s)

  -- How the search of the router ends.
  abbrev Found : List (Route P) → Type ℓ
  Found rs =
      ((r : Route P) × (first_route rs (method_of req) req.path ≡ some r) × FirstOf rs r)
      ⊎ ((first_route rs (method_of req) req.path ≡ none) × All (λ x. ¬ Serves req x) rs)

  pass-Found :
      (x : Route P) (rs : List (Route P))
      → ¬ Serves req x
      → first_route (x ∷ rs) (method_of req) req.path ≡ first_route rs (method_of req) req.path
      → Found rs
      → Found (x ∷ rs)
  pass-Found x rs n e (inl (r, f, first)) = inl (r, e ∙ f, more-FirstOf x r rs n first)
  pass-Found x rs n e (inr (f, all)) = inr (e ∙ f, (n, all))

  find-Found : (rs : List (Route P)) → Found rs
  unfolding first_route
  find-Found [] = inr (refl, tt)
  find-Found (r ∷ rs) = elim (Bool-cases (matches r req.path)) [
    | inr m ↦
        pass-Found r rs (λ s. let (a, b) = Serves-picked r s in absurd cc) (rw m refl)
          (find-Found rs)
    | inl m ↦ elim (Bool-cases (equal r.method (method_of req))) [
      | inr q ↦
          pass-Found r rs (λ s. let (a, b) = Serves-picked r s in absurd cc) (rw (m, q) refl)
            (find-Found rs)
      | inl q ↦ inl (r, rw (m, q) refl, ([], rs, refl, tt, picked-Serves r m q))
    ]
  ]

  serve-Handles : (r : Route P) (res : Response P) → Handles (r.handler req res) (serve r req res)
  unfolding serve
  serve-Handles r res = handled (r.handler req res)
    where
      handled :
          (h : Handled P)
          → Handles h (elim h [
            | returned served ↦ served
            | thrown what ↦ text 500 ((codes "internal error: " ++ what) ++ codes "\n") plain_text
          ])
      handled (returned served) = refl
      handled (thrown what) = refl

unserved-Refuses {ℓ} :
    (P : Type ℓ) (ms : List Bytes) → IsWritten ms → Refuses ms (unserved {P = P} (join ms))
unfolding unserved text set get iequals
unserved-Refuses P [] w = refl
unserved-Refuses P (m ∷ ms) (inl e) = absurd (cc)
unserved-Refuses P (m ∷ ms) (inr (c, s, e)) =
    let status : (unserved {P = P} (join (m ∷ ms))).status ≡ 405 = rw e refl in
    let allow : get (unserved {P = P} (join (m ∷ ms))).headers (codes "Allow")
        ≡ some (join (m ∷ ms)) =
      rw e refl in
    (status, allow)

-- The handler of the first route for the request answers, or none is for it and it is refused.
abbrev pub Answers {ℓ} : {P : Type ℓ} → List (Route P) → Request → Response P → Response P → Type ℓ
Answers {P} rs req res out =
    ((before : List (Route P)) × (r : Route P) × (after : List (Route P)) × (rs
        ≡ before ++ (r ∷ after))
      × All (λ x. ¬ Serves req x) before
      × Serves req r
      × Handles (r.handler req res) out)
    ⊎ (All (λ x. ¬ Serves req x) rs
        × (ms : List Bytes) × Gathered req.path [] rs ms
        × Refuses ms out)

-- Either there is a first route that matches the path and has the request's method, GET for a HEAD, and
-- `dispatch` answers what its handler leaves, or a 500 where it throws; or there is none, and it answers 404
-- where no method has been gathered from the routes that match the path, otherwise 405 with these methods in
-- `Allow`: in the order of the routes, HEAD behind GET, and a method left out exactly where its text stands in
-- what has been written before it.
pub dispatch-Answered {ℓ} :
    {P : Type ℓ} (rs : List (Route P)) (req : Request) (res : Response P)
    → Answers rs req res (dispatch rs req res)
dispatch-Answered rs req res =
    let e = dispatch-answer rs req res in
    elim (find-Found req rs) [
      | inl (r, f, first) ↦
          let (before, after, q, all, s) = first in
          inl (before, r, after, q, all, s, rw (e, f) (serve-Handles req r res))
      | inr (f, all) ↦
          let (ms, g, w, l) = allowed-Gathered req.path [] rs (inl refl) in
          inr (all, ms, g, rw (e, f, l) (unserved-Refuses _ ms w))
    ]
