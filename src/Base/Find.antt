-- ===== src/Base/Find.antt =====
-- `std::string_view::find`, for one byte and for a string; `none` is `npos`.
use Prim.Native.Nat.{ℕ, suc, ◌+◌, ◌≤◌, ◌<◌}
use mathlib.Core.Path.{◌≡◌, refl, sym, ◌∙◌}
use mathlib.Core.Bool.{Bool, true, false, ◌&&◌}
use mathlib.Core.List.{[], ◌∷◌, ◌++◌}
use mathlib.Core.Option
use mathlib.Core.Option.{Option, none, some}
use native.Mathlib.Omega.{arith}
use http.Base.Tests.{◌==◌, if◌then◌else◌, Bool-cases, Option-cases}
use mathlib.Core.Logic.{◌⊎◌, inl, inr}
use http.Base.Lists.{Bytes, length, take, drop}

-- Equality of two strings.
unfoldable pub equal : Bytes → Bytes → Bool
equal [] [] = true
equal (x ∷ xs) (y ∷ ys) = x == y && equal xs ys
equal _ _ = false

pub equal_refl : (s : Bytes) → equal s s ≡ true
unfolding equal
equal_refl [] = refl
equal_refl (c ∷ s) = ground (arith, equal_refl s)

unfoldable pub starts_with : Bytes → Bytes → Bool
starts_with [] s = true
starts_with (x ∷ p) [] = false
starts_with (x ∷ p) (y ∷ s) = x == y && starts_with p s

unfoldable pub find_str : Bytes → Bytes → Option ℕ
unfolding starts_with
find_str p [] = if starts_with p [] then some 0 else none
find_str p (y ∷ s) = if starts_with p (y ∷ s) then some 0 else Option.map suc (find_str p s)

-- `s.find(c)`.
unfoldable pub find : ℕ → Bytes → Option ℕ
find c [] = none
find c (y ∷ s) = if y == c then some 0 else Option.map suc (find c s)

-- `s.find(c, pos)`.
unfoldable pub find_from : ℕ → ℕ → Bytes → Option ℕ
unfolding find
find_from pos c s = Option.map (λ i. pos + i) (find c (drop pos s))

-- `s.substr(0, n)`, where `none` is `npos`.
unfoldable pub before : Option ℕ → Bytes → Bytes
before none s = s
before (some n) s = take n s

pub starts_with-append : (p s t : Bytes) → starts_with p s ≡ true → starts_with p (s ++ t) ≡ true
unfolding starts_with
starts_with-append [] s t h = refl
starts_with-append (x ∷ p) [] t h = ground arith
starts_with-append (x ∷ p) (y ∷ s) t h = ground (arith, starts_with-append p s t)

pub starts_with-long :
    (p s t : Bytes) → length p ≤ length s → starts_with p (s ++ t) ≡ starts_with p s
unfolding starts_with
starts_with-long [] s t h = refl
starts_with-long (x ∷ p) [] t h = absurd (omega arith)
starts_with-long (x ∷ p) (y ∷ s) t h = ground (arith, starts_with-long p s t)

pub starts_with_bound : (p s : Bytes) → starts_with p s ≡ true → length p ≤ length s
unfolding starts_with
starts_with_bound [] s h = omega arith
starts_with_bound (x ∷ p) [] h = ground arith
starts_with_bound (x ∷ p) (y ∷ s) h = ground (arith, starts_with_bound p s)

-- What one step of the search gives.
find_str_step :
    (p : Bytes) (y : ℕ) (s : Bytes) (i : ℕ)
    → find_str p (y ∷ s) ≡ some i
    → ((starts_with p (y ∷ s) ≡ true) × (i ≡ 0))
      ⊎ ((starts_with p (y ∷ s) ≡ false) × (j : ℕ) × (find_str p s ≡ some j) × (i ≡ suc j))
unfolding find_str
find_str_step p y s i h = elim (Bool-cases (starts_with p (y ∷ s))) [
  | inl e ↦ inl (e, ground arith)
  | inr e ↦ elim (Option-cases (find_str p s)) [
    | inl n ↦ absurd (ground arith)
    | inr (j, q) ↦ inr (e, j, q, ground arith)
  ]
]

pub find_str_bound : (p s : Bytes) (i : ℕ) → find_str p s ≡ some i → i + length p ≤ length s
find_str_bound p [] i h = unfold find_str in ground (arith, starts_with_bound p [])
find_str_bound p (y ∷ s) i h = elim (find_str_step p y s i h) [
  | inl (e, z) ↦ omega (arith, starts_with_bound p (y ∷ s) e)
  | inr (e, j, q, z) ↦ omega (arith, find_str_bound p s j q)
]

find_str_here :
    (p : Bytes) (y : ℕ) (s : Bytes) → starts_with p (y ∷ s) ≡ true → find_str p (y ∷ s) ≡ some 0
unfolding find_str
find_str_here p y s e = rw e

find_str_later :
    (p : Bytes) (y : ℕ) (s : Bytes) (j : ℕ)
    → starts_with p (y ∷ s) ≡ false
    → find_str p s ≡ some j
    → find_str p (y ∷ s) ≡ some (suc j)
unfolding find_str
find_str_later p y s j e q = rw (e, q)

pub find_str-none :
    (p : Bytes) (y : ℕ) (s : Bytes)
    → find_str p (y ∷ s) ≡ none
    → (starts_with p (y ∷ s) ≡ false) × (find_str p s ≡ none)
unfolding find_str
find_str-none p y s h = elim (Bool-cases (starts_with p (y ∷ s))) [
  | inl e ↦ absurd (ground arith)
  | inr e ↦ elim (Option-cases (find_str p s)) [
    | inl n ↦ (e, n)
    | inr (j, q) ↦ absurd (ground arith)
  ]
]

pub find_str_nil : (s : Bytes) → find_str [] s ≡ some 0
unfolding find_str
find_str_nil [] = refl
find_str_nil (y ∷ s) = refl

-- A place that is found in a string stays the first one when the string grows.
pub find_str-append : (p s t : Bytes) (i : ℕ) → find_str p s ≡ some i → find_str p (s ++ t) ≡ some i
find_str-append [] [] t i h = find_str_nil t ∙ sym (find_str_nil []) ∙ h
find_str-append (x ∷ p) [] t i h = absurd (unfold find_str in ground arith)
find_str-append p (y ∷ s) t i h = elim (find_str_step p y s i h) [
  | inl (e, z) ↦ rw z (find_str_here p y (s ++ t) (starts_with-append p (y ∷ s) t e))
  | inr (e, j, q, z) ↦ rw z (
      find_str_later p y (s ++ t) j
        (starts_with-long p (y ∷ s) t (omega (arith, find_str_bound p s j q)) ∙ e)
        (find_str-append p s t j q))
]

-- A place that was not found in the first part ends behind it.
pub find_str-grown :
    (p s t : Bytes) (i : ℕ)
    → find_str p s ≡ none
    → find_str p (s ++ t) ≡ some i
    → length s < i + length p
find_str-grown [] [] t i h k = absurd (unfold find_str in ground arith)
find_str-grown (x ∷ p) [] t i h k = omega arith
find_str-grown p (y ∷ s) t i h k = elim (find_str_step p y (s ++ t) i k) [
  | inl (e, z) ↦ ground (arith, starts_with-long p (y ∷ s) t, (find_str-none p y s h).0)
  | inr (e, j, q, z) ↦ omega (arith, find_str-grown p s t j (find_str-none p y s h).1 q)
]
