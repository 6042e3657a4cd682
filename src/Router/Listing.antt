-- ===== src/Router/Listing.antt =====
-- The list of methods that the router writes to `Allow`.
use http.Base.{
  ℕ, true, not, List, [], ◌∷◌, ◌++◌, none, some, Bytes, codes, if◌then◌else◌, equal, find_str,
  starts_with, find_str-none, find_str_nil, ◌≡◌, ◌≢◌, refl, ◌∙◌, ap, sym, arith, inl, inr, ◌⊎◌,
  Bool-cases, Option-cases, append_assoc, append-nil,
}
use http.Ascii.{is_empty}
use http.Router.{Route, matches, allow_also}
use http.Router.Dispatch.{allowed}
use http.Router.Matching.{Covers, matches_iff}

-- `p` stands somewhere within `s`.
abbrev pub Contains : Bytes → Bytes → Type 0
Contains s p = (a : Bytes) × (b : Bytes) × (s ≡ a ++ (p ++ b))

-- The methods behind one another, with a comma and a blank between two.
abbrev with_commas : List Bytes → Bytes
with_commas [] = []
with_commas (m ∷ ms) = codes ", " ++ (m ++ with_commas ms)

abbrev pub join : List Bytes → Bytes
join [] = []
join (m ∷ ms) = m ++ with_commas ms

-- What a new method brings: a GET brings HEAD.
abbrev pub brings : Bytes → List Bytes
brings m = m ∷ (if equal m (codes "GET") then codes "HEAD" ∷ [] else [])

-- From the list `ms` on, the routes bring it to `ns`: a route that does not match the path brings nothing,
-- and one that does brings its method, unless that stands in what has been written so far.
pub data Gathered {ℓ} {P : Type ℓ} (path : Bytes)
    : List Bytes → List (Route P) → List Bytes → Type ℓ where
  ends : {ms : List Bytes} → Gathered path ms [] ms
  elsewhere :
      {ms ns : List Bytes} {r : Route P} {rs : List (Route P)}
      → ¬ Covers r path
      → Gathered path ms rs ns
      → Gathered path ms (r ∷ rs) ns
  stands :
      {ms ns : List Bytes} {r : Route P} {rs : List (Route P)}
      → Covers r path
      → Contains (join ms) r.method
      → Gathered path ms rs ns
      → Gathered path ms (r ∷ rs) ns
  listed :
      {ms ns : List Bytes} {r : Route P} {rs : List (Route P)}
      → Covers r path
      → ¬ Contains (join ms) r.method
      → Gathered path (ms ++ brings r.method) rs ns
      → Gathered path ms (r ∷ rs) ns

starts_with-rest : (p s : Bytes) → starts_with p s ≡ true → (t : Bytes) × (s ≡ p ++ t)
unfolding starts_with
starts_with-rest [] s h = (s, refl)
starts_with-rest (x ∷ p) [] h = absurd (ground arith)
starts_with-rest (x ∷ p) (y ∷ s) h =
    let same : y ≡ x = ground arith in let (t, e) = starts_with-rest p s (ground arith) in (t, cc)

find_str-Contains : (p s : Bytes) (i : ℕ) → find_str p s ≡ some i → Contains s p
unfolding find_str
find_str-Contains p [] i h = elim (Bool-cases (starts_with p [])) [
  | inl e ↦ let (t, q) = starts_with-rest p [] e in ([], t, q)
  | inr e ↦ absurd (ground arith)
]
find_str-Contains p (y ∷ s) i h = elim (Bool-cases (starts_with p (y ∷ s))) [
  | inl e ↦ let (t, q) = starts_with-rest p (y ∷ s) e in ([], t, q)
  | inr e ↦ elim (Option-cases (find_str p s)) [
    | inl n ↦ absurd (ground arith)
    | inr (j, q) ↦ let (a, b, f) = find_str-Contains p s j q in (y ∷ a, b, ap (◌∷◌ y) f)
  ]
]

starts_with_self : (p t : Bytes) → starts_with p (p ++ t) ≡ true
unfolding starts_with
starts_with_self [] t = refl
starts_with_self (x ∷ p) t = ground (arith, starts_with_self p t)

find_str_suffix : (s p t : Bytes) → find_str p (s ++ (p ++ t)) ≢ none
find_str_suffix [] [] t e = let n = find_str_nil t in absurd (cc)
find_str_suffix [] (x ∷ p) t e =
    let a = starts_with_self (x ∷ p) t in
    let b = (find_str-none (x ∷ p) x (p ++ t) e).0 in absurd (cc)
find_str_suffix (y ∷ s) p t e = find_str_suffix s p t (find_str-none p y (s ++ (p ++ t)) e).1

Contains-find_str : (p s : Bytes) → Contains s p → find_str p s ≢ none
Contains-find_str p s (a, b, e) = rw e (find_str_suffix a p b)

abbrev separator : Bytes → Bytes
separator [] = []
separator (c ∷ s) = codes ", "

abbrev head_too : Bytes → Bytes
head_too method = if equal method (codes "GET") then codes ", HEAD" else []

separated :
    (allow : Bytes)
    → (if not (is_empty allow) then allow ++ codes ", " else allow) ≡ allow ++ separator allow
separated [] = refl
separated (c ∷ s) = refl

allow_also_new :
    (allow method : Bytes)
    → find_str method allow ≡ none
    → allow_also allow method ≡ allow ++ (separator allow ++ (method ++ head_too method))
unfolding allow_also
allow_also_new allow method e = elim (Bool-cases (equal method (codes "GET"))) [
  | inl g ↦ rw (allow_also, e, g, separated allow) (simp append_assoc)
  | inr g ↦ rw (allow_also, e, g, separated allow) (simp (append_assoc, append-nil))
]

allow_also_old :
    (allow method : Bytes) (i : ℕ)
    → find_str method allow ≡ some i
    → allow_also allow method ≡ allow
unfolding allow_also
allow_also_old allow method i e = rw (allow_also, e) refl

with_commas-append :
    (ks ms : List Bytes) → with_commas (ks ++ ms) ≡ with_commas ks ++ with_commas ms
with_commas-append [] ms = refl
with_commas-append (k ∷ ks) ms =
    ap (λ t. codes ", " ++ (k ++ t)) (with_commas-append ks ms)
    ∙ ap (λ t. codes ", " ++ t) (sym (append_assoc k (with_commas ks) (with_commas ms)))

-- Only the empty list is written as nothing.
abbrev pub IsWritten : List Bytes → Type 0
IsWritten ms = (ms ≡ []) ⊎ ((c : ℕ) × (s : Bytes) × (join ms ≡ c ∷ s))

join-append :
    (ms ks : List Bytes) (m : Bytes)
    → IsWritten ms
    → join (ms ++ (m ∷ ks)) ≡ join ms ++ (separator (join ms) ++ (m ++ with_commas ks))
join-append [] ks m w = refl
join-append (k ∷ ms) ks m (inl e) = absurd (cc)
join-append (k ∷ ms) ks m (inr (c, s, e)) =
    let sep : separator (join (k ∷ ms)) ≡ codes ", " = ap separator e in
    ap (λ t. k ++ t) (with_commas-append ms (m ∷ ks))
    ∙ sym (append_assoc k (with_commas ms) (with_commas (m ∷ ks)))
    ∙ ap (λ t. (k ++ with_commas ms) ++ (t ++ (m ++ with_commas ks))) (sym sep)

head_too-brings :
    (m : Bytes) → head_too m ≡ with_commas (if equal m (codes "GET") then codes "HEAD" ∷ [] else [])
head_too-brings m = elim (Bool-cases (equal m (codes "GET"))) [
  | inl e ↦ rw e refl
  | inr e ↦ rw e refl
]

module _ (ms : List Bytes) (m : Bytes) (w : IsWritten ms) (new : ¬ Contains (join ms) m) where
  not_found : find_str m (join ms) ≡ none
  not_found = elim (Option-cases (find_str m (join ms))) [
    | inl e ↦ e
    | inr (i, e) ↦ absurd (new (find_str-Contains m (join ms) i e))
  ]

  allow_also-join : allow_also (join ms) m ≡ join (ms ++ brings m)
  allow_also-join =
      allow_also_new (join ms) m not_found
      ∙ ap (λ t. join ms ++ (separator (join ms) ++ (m ++ t))) (head_too-brings m)
      ∙ sym (join-append ms _ m w)

grown :
    (a b t : Bytes) (c : ℕ) (s : Bytes)
    → a ≡ c ∷ s
    → b ≡ a ++ t
    → (d : ℕ) × (u : Bytes) × (b ≡ d ∷ u)
grown a b t c s e q = (c, s ++ t, q ∙ ap (λ x. x ++ t) e)

append-IsWritten :
    (ms : List Bytes) (m : Bytes)
    → IsWritten ms
    → ¬ Contains (join ms) m
    → IsWritten (ms ++ brings m)
append-IsWritten ms [] w new = absurd (new ([], join ms, refl))
append-IsWritten [] (c ∷ m) w new = inr (c, _, refl)
append-IsWritten (k ∷ ms) (c ∷ m) (inl e) new = absurd (cc)
append-IsWritten (k ∷ ms) (x ∷ m) (inr (c, s, e)) new =
    inr (grown _ _ _ c s e (join-append (k ∷ ms) _ (x ∷ m) (inr (c, s, e))))

-- What the router gathers is the list of the methods, written with commas.
pub allowed-Gathered {ℓ} :
    {P : Type ℓ} (path : Bytes) (ms : List Bytes) (rs : List (Route P))
    → IsWritten ms
    → (ns : List Bytes) × Gathered path ms rs ns
      × IsWritten ns
      × (allowed (join ms) rs path ≡ join ns)
unfolding allowed
allowed-Gathered path ms [] w = (ms, ends, w, refl)
allowed-Gathered path ms (r ∷ rs) w = elim (Bool-cases (matches r path)) [
  | inr e ↦
      let (ns, g, v, q) = allowed-Gathered path ms rs w in
      (ns, elsewhere (λ c. let y = (matches_iff r path).1 c in absurd cc) g, v, rw e q)
  | inl e ↦
      let c = (matches_iff r path).0 e in
      elim (Option-cases (find_str r.method (join ms))) [
        | inr (i, f) ↦
            let (ns, g, v, q) = allowed-Gathered path ms rs w in
            (
              ns,
              stands c (find_str-Contains r.method (join ms) i f) g,
              v,
              rw (e, allow_also_old (join ms) r.method i f) q,
            )
        | inl f ↦
            let new =
              λ (h : Contains (join ms) r.method). Contains-find_str r.method (join ms) h f in
            let (ns, g, v, q) =
              allowed-Gathered path (ms ++ brings r.method) rs
                (append-IsWritten ms r.method w new) in
            (ns, listed c new g, v, rw (e, allow_also-join ms r.method w new) q)
      ]
]
