-- ===== src/Ascii/Fold.antt =====
-- What `iequals` decides: equality of the strings in lower case.
use http.Base.{ℕ, ◌+◌, ◌≤◌, true, [], ◌∷◌, map, ◌≡◌, refl, ◌↔◌, ◌⊎◌, arith, Bytes, length, ==_iff}
use http.Ascii.{ascii_lower, same_folded, iequals}

-- The string in lower case, letter by letter.
unfoldable pub lower : Bytes → Bytes
lower s = map ascii_lower s

same_folded-eq : (a b : Bytes) → length a ≡ length b → same_folded a b ≡ true → lower a ≡ lower b
unfolding same_folded lower
same_folded-eq [] [] l h = refl
same_folded-eq [] (y ∷ b) l h = absurd (omega arith)
same_folded-eq (x ∷ a) [] l h = absurd (omega arith)
same_folded-eq (x ∷ a) (y ∷ b) l h =
    ground (arith, same_folded-eq a b, ==_iff (ascii_lower x) (ascii_lower y))

eq-same_folded :
    (a b : Bytes) → lower a ≡ lower b → (length a ≡ length b) × (same_folded a b ≡ true)
unfolding same_folded lower
eq-same_folded [] [] h = (refl, refl)
eq-same_folded [] (y ∷ b) h = absurd (cc)
eq-same_folded (x ∷ a) [] h = absurd (cc)
eq-same_folded (x ∷ a) (y ∷ b) h =
    let same : ascii_lower x ≡ ascii_lower y = cc in
    let rest : lower a ≡ lower b = cc in ground (arith, eq-same_folded a b rest, same)

-- `iequals` holds exactly for strings that agree in lower case.
pub iequals_iff : (a b : Bytes) → (iequals a b ≡ true) ↔ (lower a ≡ lower b)
unfolding iequals
iequals_iff a b = (
  λ h. same_folded-eq a b (ground arith) (ground arith),
  λ e. ground (arith, eq-same_folded a b e),
)

-- The same byte, or a letter in its two cases.
abbrev pub SameLetter : ℕ → ℕ → Type 0
SameLetter x y =
    (x ≡ y) ⊎ (((65 ≤ x) × (x ≤ 90) × (y ≡ x + 32)) ⊎ ((65 ≤ y) × (y ≤ 90) × (x ≡ y + 32)))

-- Byte for byte, and as many.
pub data SameLetters : Bytes → Bytes → Type 0 where
  ends : SameLetters [] []
  letter : {x y : ℕ} {a b : Bytes} → SameLetter x y → SameLetters a b → SameLetters (x ∷ a) (y ∷ b)

ascii_lower-SameLetter : (x y : ℕ) → ascii_lower x ≡ ascii_lower y → SameLetter x y
unfolding ascii_lower
ascii_lower-SameLetter x y e = ground arith

SameLetter-ascii_lower : (x y : ℕ) → SameLetter x y → ascii_lower x ≡ ascii_lower y
unfolding ascii_lower
SameLetter-ascii_lower x y e = ground arith

lower-SameLetters : (a b : Bytes) → lower a ≡ lower b → SameLetters a b
unfolding lower
lower-SameLetters [] [] h = ends
lower-SameLetters [] (y ∷ b) h = absurd (cc)
lower-SameLetters (x ∷ a) [] h = absurd (cc)
lower-SameLetters (x ∷ a) (y ∷ b) h =
    letter (ascii_lower-SameLetter x y (cc)) (lower-SameLetters a b (cc))

SameLetters-lower : {a b : Bytes} → SameLetters a b → lower a ≡ lower b
unfolding lower
SameLetters-lower ends = refl
SameLetters-lower (letter {x} {y} {a} {b} h k) =
    let first = SameLetter-ascii_lower x y h in let rest = SameLetters-lower k in cc

-- `iequals` holds exactly for two strings of one length whose bytes agree in turn, or are a letter from
-- `A` to `Z` and the same letter from `a` to `z`, 32 above it.
pub iequals-SameLetters : (a b : Bytes) → (iequals a b ≡ true) ↔ SameLetters a b
iequals-SameLetters a b =
    let (f, g) = iequals_iff a b in (λ h. lower-SameLetters a b (f h), λ k. g (SameLetters-lower k))
