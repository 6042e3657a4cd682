-- ===== src/Parser/Numbers/Radix.antt =====
-- The value of a run of digits, with no wrap-around: what the loops of the parser compute for
-- the lengths that it admits.
use http.Base.{
  ℕ, zero, suc, ◌%◌, ◌+◌, ◌-◌, ◌*◌, ◌^◌, ◌≤◌, ◌<◌, ◌≡◌, ◌≢◌, refl, ◌∙◌, ◌↔◌, [], ◌∷◌, Bytes, true,
  some, inl, inr, arith, length, All, Bool-cases, ltb, ltb→le, le→ltb, ap, sym,
}
use http.Parser.{wrap}
use http.Parser.Numbers.{is_digit, decimal_loop, parse_decimal}

-- The digits of `s` behind a number `v`, to a base, where `digit` tells a byte's value.
abbrev pub radix_value : ℕ → (ℕ → ℕ) → Bytes → ℕ → ℕ
radix_value base digit [] v = v
radix_value base digit (c ∷ s) v = radix_value base digit s (v * base + digit c)

abbrev pub power : ℕ → ℕ → ℕ
power base zero = 1
power base (suc n) = base * power base n

power_pos : (base n : ℕ) → 0 < base → 0 < power base n
power_pos base zero h = omega arith
power_pos base (suc n) h = grind (arith, power_pos base n h)

pub power_mono : (base n m : ℕ) → 0 < base → n ≤ m → power base n ≤ power base m
power_mono base zero m h l = power_pos base m h
power_mono base (suc n) zero h l = absurd (omega arith)
power_mono base (suc n) (suc m) h l = let r = power_mono base n m h (omega arith) in grind arith

le_mul : (a b : ℕ) → 0 < b → a ≤ a * b
le_mul a b h = grind arith

mul_mono : (a b c : ℕ) → a ≤ b → a * c ≤ b * c
mul_mono a b c h = grind arith

module _ (base : ℕ) (digit : ℕ → ℕ) where
  pub radix_value_ge : (s : Bytes) (v : ℕ) → 0 < base → v ≤ radix_value base digit s v
  radix_value_ge [] v h = omega arith
  radix_value_ge (c ∷ s) v h =
      omega (arith, radix_value_ge s (v * base + digit c) h, le_mul v base h)

  pub radix_value_lt :
      (s : Bytes) (v : ℕ)
      → All (λ c. digit c < base) s
      → radix_value base digit s v < (v + 1) * power base (length s)
  radix_value_lt [] v h = omega arith
  radix_value_lt (c ∷ s) v h = omega (
    arith,
    radix_value_lt s (v * base + digit c) h.1,
    mul_mono (v * base + digit c + 1) ((v + 1) * base) (power base (length s)) (omega (arith, h.0)),
  )

unfoldable pub decimal_digit : ℕ → ℕ
decimal_digit c = c - b'0'

-- The number that a string of decimal digits writes.
unfoldable pub decimal_value : Bytes → ℕ
unfolding decimal_digit
decimal_value s = radix_value 10 decimal_digit s 0

abbrev pub IsDigit : ℕ → Type 0
IsDigit c = is_digit c ≡ true

digits_small : (s : Bytes) → All IsDigit s → All (λ c. decimal_digit c < 10) s
unfolding is_digit decimal_digit
digits_small [] h = tt
digits_small (c ∷ s) h = (ground arith, digits_small s h.1)

-- The loop computes the value, as long as that fits in 64 bits.
decimal_loop-value :
    (s : Bytes) (v : ℕ)
    → All IsDigit s
    → radix_value 10 decimal_digit s v < 2 ^ 64
    → decimal_loop s v ≡ some (radix_value 10 decimal_digit s v)
unfolding decimal_loop decimal_digit
decimal_loop-value [] v h l = refl
decimal_loop-value (c ∷ s) v h l =
    let small : v * 10 + (c - b'0') < 2 ^ 64 =
      omega (arith, radix_value_ge 10 decimal_digit s (v * 10 + (c - b'0')) (omega arith), l) in
    let same : (v * 10 + (c - b'0')) % 2 ^ 64 ≡ v * 10 + (c - b'0') = omega arith in
    rw (h.0) (rw same (decimal_loop-value s (v * 10 + (c - b'0')) h.1 l))

decimal_loop-IsDigit : (s : Bytes) (v n : ℕ) → decimal_loop s v ≡ some n → All IsDigit s
unfolding decimal_loop
decimal_loop-IsDigit [] v n h = tt
decimal_loop-IsDigit (c ∷ s) v n h = elim (Bool-cases (is_digit c)) [
  | inl e ↦ (e, decimal_loop-IsDigit s (wrap (v * 10 + (c - b'0'))) n (rw e at h))
  | inr e ↦ absurd (ground arith)
]

-- Nineteen digits are below 2 to the 64.
decimal_fits :
    (s : Bytes) → All IsDigit s → length s ≤ 19 → radix_value 10 decimal_digit s 0 < 2 ^ 64
decimal_fits s h l = omega (
  arith,
  radix_value_lt 10 decimal_digit s 0 (digits_small s h),
  power_mono 10 (length s) 19 (omega arith) l,
)

parse_decimal_loop : (s : Bytes) → s ≢ [] → length s ≤ 19 → parse_decimal s ≡ decimal_loop s 0
unfolding parse_decimal
parse_decimal_loop [] h l = absurd (h refl)
parse_decimal_loop (c ∷ s) h l = rw (le→ltb 19 (length (c ∷ s)) l)

parse_decimal_sized : (s : Bytes) (n : ℕ) → parse_decimal s ≡ some n → (s ≢ []) × (length s ≤ 19)
unfolding parse_decimal
parse_decimal_sized [] n h = absurd (ground arith)
parse_decimal_sized (c ∷ s) n h = elim (Bool-cases (ltb 19 (length (c ∷ s)))) [
  | inl e ↦ absurd (ground arith)
  | inr e ↦ (λ x. cc, ltb→le 19 (length (c ∷ s)) e)
]

-- `parse_decimal` reads exactly the non-empty strings of at most 19 digits, and gives the number that
-- they write: the 64-bit arithmetic of its loop never wraps.
pub parse_decimal_iff :
    (s : Bytes) (n : ℕ)
    → (parse_decimal s ≡ some n)
      ↔ ((s ≢ []) × (length s ≤ 19) × All IsDigit s × (n ≡ decimal_value s))
unfolding decimal_value
parse_decimal_iff s n = (
  λ h.
      let (ne, l) = parse_decimal_sized s n h in
      let loop = sym (parse_decimal_loop s ne l) ∙ h in
      let digits = decimal_loop-IsDigit s 0 n loop in
      let value = sym loop ∙ decimal_loop-value s 0 digits (decimal_fits s digits l) in
      (ne, l, digits, cc),
  λ k.
      parse_decimal_loop s k.0 k.1
      ∙ decimal_loop-value s 0 k.2 (decimal_fits s k.2 k.1)
      ∙ ap some (sym k.3),
)
