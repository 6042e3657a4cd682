-- ===== src/Router/Matching.antt =====
-- When a route matches a path.
use http.Base.{
  true, false, [], ◌∷◌, ◌++◌, Bytes, length, take, drop, equal, equal_refl, ◌≡◌, refl, ◌∙◌, ap, sym,
  arith, inl, inr, ◌⊎◌, ◌↔◌, Bool-cases, take-append-drop, take-length,
}
use http.Router.{Route, matches}

-- The route's path is the path, or its beginning where the route takes a prefix.
abbrev pub Covers {ℓ} : {P : Type ℓ} → Route P → Bytes → Type 0
Covers r path =
    ((r.prefix ≡ true) × (t : Bytes) × (path ≡ r.path ++ t))
    ⊎ ((r.prefix ≡ false) × (path ≡ r.path))

pub equal-eq : (a b : Bytes) → equal a b ≡ true → a ≡ b
unfolding equal
equal-eq [] [] h = refl
equal-eq [] (y ∷ b) h = absurd (ground arith)
equal-eq (x ∷ a) [] h = absurd (ground arith)
equal-eq (x ∷ a) (y ∷ b) h = ground (arith, equal-eq a b)

equal_cut : (p s : Bytes) → equal (take (length p) s) p ≡ true → (t : Bytes) × (s ≡ p ++ t)
equal_cut p s h =
    let e = equal-eq (take (length p) s) p h in
    (drop (length p) s, sym (take-append-drop (length p) s) ∙ ap (λ q. q ++ drop (length p) s) e)

matches-Covers {ℓ} :
    {P : Type ℓ} (r : Route P) (path : Bytes) → matches r path ≡ true → Covers r path
unfolding matches
matches-Covers r path h = elim (Bool-cases r.prefix) [
  | inl e ↦ let (t, q) = equal_cut r.path path (rw (e, matches) at h) in inl (e, t, q)
  | inr e ↦ inr (e, equal-eq path r.path (rw (e, matches) at h))
]

Covers-matches {ℓ} :
    {P : Type ℓ} (r : Route P) (path : Bytes) → Covers r path → matches r path ≡ true
unfolding matches
Covers-matches r path (inl (e, t, q)) = rw (e, matches, q, take-length r.path t) (equal_refl r.path)
Covers-matches r path (inr (e, q)) = rw (e, matches, q) (equal_refl r.path)

pub matches_iff {ℓ} :
    {P : Type ℓ} (r : Route P) (path : Bytes) → (matches r path ≡ true) ↔ Covers r path
matches_iff r path = (matches-Covers r path, Covers-matches r path)
