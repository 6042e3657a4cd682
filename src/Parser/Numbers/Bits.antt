-- ===== src/Parser/Numbers/Bits.antt =====
-- `bit_or` of a number whose low four bits are free with a number of four bits is their sum.
use Prim.Native.Nat.{bit_or, digits, max, bit_or-bitwise}
use http.Base.{ℕ, zero, suc, ◌+◌, ◌*◌, ◌/◌, ◌%◌, ◌≤◌, ◌<◌, ◌≡◌, refl, arith}

abbrev or_digits : ℕ → ℕ → ℕ → ℕ
or_digits n a b = digits (λ b. b) max n a b

or_digits_fuel : (n m a b : ℕ) → a ≤ n → a ≤ m → or_digits n a b ≡ or_digits m a b
or_digits_fuel zero zero a b p q = refl
or_digits_fuel zero (suc m) zero b p q = refl
or_digits_fuel zero (suc m) (suc a) b p q = absurd (omega arith)
or_digits_fuel (suc n) zero zero b p q = refl
or_digits_fuel (suc n) zero (suc a) b p q = absurd (omega arith)
or_digits_fuel (suc n) (suc m) zero b p q = refl
or_digits_fuel (suc n) (suc m) (suc a) b p q =
    omega (arith, or_digits_fuel n m (suc a / 2) (b / 2) (omega arith) (omega arith))

zero-bit_or : (b : ℕ) → bit_or 0 b ≡ b
zero-bit_or b = bit_or-bitwise 0 b

bit_or_step : (a b : ℕ) → bit_or a b ≡ bit_or (a / 2) (b / 2) * 2 + max (a % 2) (b % 2)
bit_or_step zero b = omega (arith, zero-bit_or b, zero-bit_or (b / 2))
bit_or_step (suc a) b = omega (
  arith,
  bit_or-bitwise (suc a) b,
  bit_or-bitwise (suc a / 2) (b / 2),
  or_digits_fuel a (suc a / 2) (suc a / 2) (b / 2) (omega arith) (omega arith),
)

bit_or-zero_fuel : (n a : ℕ) → a ≤ n → bit_or a 0 ≡ a
bit_or-zero_fuel n zero h = refl
bit_or-zero_fuel zero (suc a) h = absurd (omega arith)
bit_or-zero_fuel (suc n) (suc a) h =
    omega (arith, bit_or_step (suc a) 0, bit_or-zero_fuel n (suc a / 2) (omega arith))

halve_or : (a b : ℕ) → bit_or (2 * a) b ≡ bit_or a (b / 2) * 2 + b % 2
halve_or a b =
    let e : (2 * a) / 2 ≡ a = omega arith in
    let z : (2 * a) % 2 ≡ 0 = omega arith in rw (bit_or_step (2 * a) b, e, z) (omega arith)

pub bit_or-nibble : (x v : ℕ) → v < 16 → bit_or (x * 16) v ≡ x * 16 + v
bit_or-nibble x v h =
    let e : x * 16 ≡ 2 * (2 * (2 * (2 * x))) = omega arith in
    let z : v / 2 / 2 / 2 / 2 ≡ 0 = omega arith in
    let bottom : bit_or x (v / 2 / 2 / 2 / 2) ≡ x = rw z (bit_or-zero_fuel x x (omega arith)) in
    rw e (
      omega (
        arith,
        halve_or (2 * (2 * (2 * x))) v,
        halve_or (2 * (2 * x)) (v / 2),
        halve_or (2 * x) (v / 2 / 2),
        halve_or x (v / 2 / 2 / 2),
        bottom,
      ))
