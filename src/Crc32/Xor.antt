-- ===== src/Crc32/Xor.antt =====
-- Exclusive or, digit by digit.
use Prim.Native.Nat.{bit_xor, digits, bit_xor-bitwise, differ}
use http.Base.{ℕ, zero, suc, ◌+◌, ◌*◌, ◌/◌, ◌%◌, ◌^◌, ◌≤◌, ◌<◌, ◌≡◌, refl, ◌∙◌, ap, sym, arith}

abbrev xor_digits : ℕ → ℕ → ℕ → ℕ
xor_digits n a b = digits (λ b. b) differ n a b

xor_digits_fuel : (n m a b : ℕ) → a ≤ n → a ≤ m → xor_digits n a b ≡ xor_digits m a b
xor_digits_fuel zero zero a b p q = refl
xor_digits_fuel zero (suc m) zero b p q = refl
xor_digits_fuel zero (suc m) (suc a) b p q = absurd (omega arith)
xor_digits_fuel (suc n) zero zero b p q = refl
xor_digits_fuel (suc n) zero (suc a) b p q = absurd (omega arith)
xor_digits_fuel (suc n) (suc m) zero b p q = refl
xor_digits_fuel (suc n) (suc m) (suc a) b p q =
    omega (arith, xor_digits_fuel n m (suc a / 2) (b / 2) (omega arith) (omega arith))

pub zero-bit_xor : (b : ℕ) → bit_xor 0 b ≡ b
zero-bit_xor b = bit_xor-bitwise 0 b

differ-sum : (x y : ℕ) → x < 2 → y < 2 → differ x y ≡ (x + y) % 2
differ-sum zero y h k = omega arith
differ-sum (suc zero) zero h k = refl
differ-sum (suc zero) (suc zero) h k = refl
differ-sum (suc zero) (suc (suc y)) h k = absurd (omega arith)
differ-sum (suc (suc x)) y h k = absurd (omega arith)

bit_xor_step : (a b : ℕ) → bit_xor a b ≡ bit_xor (a / 2) (b / 2) * 2 + (a + b) % 2
bit_xor_step zero b = omega (arith, zero-bit_xor b, zero-bit_xor (b / 2))
bit_xor_step (suc a) b = omega (
  arith,
  bit_xor-bitwise (suc a) b,
  bit_xor-bitwise (suc a / 2) (b / 2),
  xor_digits_fuel a (suc a / 2) (suc a / 2) (b / 2) (omega arith) (omega arith),
  differ-sum (suc a % 2) (b % 2) (omega arith) (omega arith),
)

pub bit_xor_half : (a b : ℕ) → bit_xor a b / 2 ≡ bit_xor (a / 2) (b / 2)
bit_xor_half a b = omega (arith, bit_xor_step a b)

pub bit_xor_odd : (a b : ℕ) → bit_xor a b % 2 ≡ (a + b) % 2
bit_xor_odd a b = omega (arith, bit_xor_step a b)

assoc_fuel : (n a b c : ℕ) → a ≤ n → b ≤ n → bit_xor (bit_xor a b) c ≡ bit_xor a (bit_xor b c)
assoc_fuel zero zero zero c h k = omega (
  arith,
  zero-bit_xor 0,
  zero-bit_xor c,
  zero-bit_xor (bit_xor 0 c),
  ap (λ x. bit_xor x c) (zero-bit_xor 0),
)
assoc_fuel zero (suc a) b c h k = absurd (omega arith)
assoc_fuel zero a (suc b) c h k = absurd (omega arith)
assoc_fuel (suc n) a b c h k = omega (
  arith,
  bit_xor_step (bit_xor a b) c,
  bit_xor_step a (bit_xor b c),
  bit_xor_odd a b,
  bit_xor_odd b c,
  ap (λ x. bit_xor x (c / 2)) (bit_xor_half a b),
  ap (bit_xor (a / 2)) (bit_xor_half b c),
  assoc_fuel n (a / 2) (b / 2) (c / 2) (omega arith) (omega arith),
)

pub bit_xor_assoc : (a b c : ℕ) → bit_xor (bit_xor a b) c ≡ bit_xor a (bit_xor b c)
bit_xor_assoc a b c = assoc_fuel (a + b) a b c (omega arith) (omega arith)

self_fuel : (n a : ℕ) → a ≤ n → bit_xor a a ≡ 0
self_fuel n zero h = zero-bit_xor 0
self_fuel zero (suc a) h = absurd (omega arith)
self_fuel (suc n) (suc a) h =
    omega (arith, bit_xor_step (suc a) (suc a), self_fuel n (suc a / 2) (omega arith))

pub bit_xor_self : (a : ℕ) → bit_xor a a ≡ 0
bit_xor_self a = self_fuel a a (omega arith)

zero_fuel : (n a : ℕ) → a ≤ n → bit_xor a 0 ≡ a
zero_fuel n zero h = zero-bit_xor 0
zero_fuel zero (suc a) h = absurd (omega arith)
zero_fuel (suc n) (suc a) h =
    omega (arith, bit_xor_step (suc a) 0, zero_fuel n (suc a / 2) (omega arith))

pub bit_xor-zero : (a : ℕ) → bit_xor a 0 ≡ a
bit_xor-zero a = zero_fuel a a (omega arith)

-- What is added twice is gone.
pub bit_xor_cancel : (a b c : ℕ) → bit_xor a c ≡ bit_xor b c → a ≡ b
bit_xor_cancel a b c e =
    let twice = λ (x : ℕ). bit_xor_assoc x c c ∙ ap (bit_xor x) (bit_xor_self c) ∙ bit_xor-zero x in
    sym (twice a) ∙ ap (λ x. bit_xor x c) e ∙ twice b

pub bit_xor_bound : (n a b : ℕ) → a < 2 ^ n → b < 2 ^ n → bit_xor a b < 2 ^ n
bit_xor_bound zero a b h k =
    let p : a ≡ 0 = omega arith in
    let q : b ≡ 0 = omega arith in rw (p, q) (omega (arith, zero-bit_xor 0))
bit_xor_bound (suc n) a b h k =
    omega (arith, bit_xor_step a b, bit_xor_bound n (a / 2) (b / 2) (omega arith) (omega arith))
