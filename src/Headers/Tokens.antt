-- ===== src/Headers/Tokens.antt =====
-- `has_token` against the list of the members between commas.
use http.Base.{
  ℕ, zero, suc, ◌+◌, ◌<◌, Bool, false, ◌||◌, List, [], ◌∷◌, none, some, ◌≡◌, refl, arith, Bytes,
  ◌==◌, if◌then◌else◌, Bool-cases, Option-cases, inl, inr, length, length-drop, take, drop, find,
  before,
}
use http.Ascii.{iequals, trim_ows}
use http.Headers.{Headers, get, has_token_loop, has_token}

-- The members between the separators, in order; one more than there are separators.
abbrev pub cons_head : ℕ → List Bytes → List Bytes
cons_head c [] = (c ∷ []) ∷ []
cons_head c (p ∷ ps) = (c ∷ p) ∷ ps

unfoldable pub split_on : ℕ → Bytes → List Bytes
split_on sep [] = [] ∷ []
split_on sep (c ∷ s) = if c == sep then [] ∷ split_on sep s else cons_head c (split_on sep s)

unfoldable pub any : (Bytes → Bool) → List Bytes → Bool
any p [] = false
any p (x ∷ xs) = p x || any p xs

pub split_on-none : (sep : ℕ) (s : Bytes) → find sep s ≡ none → split_on sep s ≡ s ∷ []
unfolding split_on find
split_on-none sep [] h = refl
split_on-none sep (c ∷ s) h = elim (Option-cases (find sep s)) [
  | inl e ↦ ground (arith, split_on-none sep s e)
  | inr (i, e) ↦ absurd (ground arith)
]

pub split_on-some :
    (sep : ℕ) (s : Bytes) (i : ℕ)
    → find sep s ≡ some i
    → split_on sep s ≡ take i s ∷ split_on sep (drop (suc i) s)
unfolding split_on find
split_on-some sep [] i h = absurd (ground arith)
split_on-some sep (c ∷ s) zero h = elim (Bool-cases (c == sep)) [
  | inl e ↦ rw e
  | inr e ↦
      absurd (elim (Option-cases (find sep s)) [ inl n ↦ ground arith | inr (j, q) ↦ ground arith ])
]
split_on-some sep (c ∷ s) (suc i) h = elim (Bool-cases (c == sep)) [
  | inl e ↦ absurd (ground arith)
  | inr e ↦ elim (Option-cases (find sep s)) [
    | inl n ↦ absurd (ground arith)
    | inr (j, q) ↦ rw (e, split_on-some sep s i (ground arith))
  ]
]

pub find_bound : (c : ℕ) (s : Bytes) (i : ℕ) → find c s ≡ some i → i < length s
unfolding find
find_bound c [] i h = absurd (ground arith)
find_bound c (y ∷ s) i h = elim (Option-cases (find c s)) [
  | inl n ↦ ground arith
  | inr (j, q) ↦ ground (arith, find_bound c s j q)
]

has_token_loop-any :
    (fuel : ℕ) (rest token : Bytes)
    → length rest < fuel
    → has_token_loop fuel rest token ≡ any (λ m. iequals (trim_ows m) token) (split_on b',' rest)
unfolding has_token_loop before any
has_token_loop-any zero rest token h = absurd (omega arith)
has_token_loop-any (suc fuel) rest token h = elim (Option-cases (find b',' rest)) [
  | inl e ↦ ground (arith, e, split_on-none b',' rest e)
  | inr (i, e) ↦ ground (
    arith,
    split_on-some b',' rest i e,
    length-drop (i + 1) rest,
    find_bound b',' rest i e,
    has_token_loop-any fuel (drop (i + 1) rest) token,
  )
]

-- `has_token` holds exactly when the field is there and one of the members between the commas of its
-- value, less the blanks round it, is the token, without regard to case.
pub has_token-any :
    (h : Headers) (name token : Bytes)
    → has_token h name token ≡ elim (get h name) [
      | none ↦ false
      | some value ↦ any (λ m. iequals (trim_ows m) token) (split_on b',' value)
    ]
unfolding has_token
has_token-any h name token = elim (Option-cases (get h name)) [
  | inl e ↦ rw (e, has_token) refl
  | inr (v, e) ↦ rw (e, has_token) (has_token_loop-any (length v + 1) v token (omega arith))
]
