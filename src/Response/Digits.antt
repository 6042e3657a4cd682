-- ===== src/Response/Digits.antt =====
-- The hexadecimal digits that `std::to_chars` writes, as the parser reads them.
use http.Base.{
  ℕ, zero, suc, ◌+◌, ◌/◌, ◌%◌, ◌^◌, ◌≤◌, ◌<◌, ◌≡◌, ◌≢◌, ◌∙◌, ap, [], ◌∷◌, Bytes, some, inl, inr,
  arith, length, All, Bool-cases, ltb, ltb→lt, lt→ltb,
}
use http.Response.{digit_char, to_chars_loop}
use http.Parser.Numbers.Radix.{radix_value, power}
use http.Parser.Numbers.Lengths.{IsHex, hex_number, hex_weight, hex_weight-some}
use http.Parser.Numbers.{hex_value}

hex_value-digit_char : (d : ℕ) → d < 16 → hex_value (digit_char d) ≡ some d
unfolding hex_value digit_char
hex_value-digit_char d h = ground arith

digit_char-IsHex : (d : ℕ) → d < 16 → IsHex (digit_char d)
digit_char-IsHex d h e = let s = hex_value-digit_char d h in cc

hex_weight-digit_char : (d : ℕ) → d < 16 → hex_weight (digit_char d) ≡ d
hex_weight-digit_char d h = hex_weight-some (digit_char d) d (hex_value-digit_char d h)

-- A number that is written with digits that are all hexadecimal, before others.
record Written (v : ℕ) (shown s : Bytes) : Type 0 where
  digits : All IsHex s
  value : radix_value 16 hex_weight s 0 ≡ radix_value 16 hex_weight shown v

loop-Written :
    (fuel v : ℕ) (shown : Bytes)
    → v < power 16 fuel
    → All IsHex shown
    → Written v shown (to_chars_loop fuel 16 v shown)
unfolding to_chars_loop
loop-Written zero v shown l h = record {
  digits = h;
  value = ap (radix_value 16 hex_weight shown) (omega arith);
}
loop-Written (suc fuel) v shown l h = elim (Bool-cases (ltb v 16)) [
  | inl e ↦
      rw (e, to_chars_loop)
        (record {
          digits = (digit_char-IsHex v (ltb→lt v 16 e), h);
          value =
              ap (radix_value 16 hex_weight shown)
                (let d = hex_weight-digit_char v (ltb→lt v 16 e) in omega arith);
        })
  | inr e ↦
      let small : v % 16 < 16 = omega arith in
      let w =
        loop-Written fuel (v / 16) (digit_char (v % 16) ∷ shown) (omega arith)
          (digit_char-IsHex (v % 16) small, h) in
      rw (e, to_chars_loop)
        (record {
          digits = w.digits;
          value =
              w.value
              ∙ ap (radix_value 16 hex_weight shown)
                  (let d = hex_weight-digit_char (v % 16) small in omega arith);
        })
]

-- How many digits it adds: one at least, and no more than the number has.
loop_length :
    (fuel k v : ℕ) (shown : Bytes)
    → v < power 16 (suc k)
    → k < fuel
    → (length shown < length (to_chars_loop fuel 16 v shown))
      × (length (to_chars_loop fuel 16 v shown) ≤ suc k + length shown)
unfolding to_chars_loop
loop_length zero k v shown l h = absurd (omega arith)
loop_length (suc fuel) zero v shown l h =
    rw (lt→ltb v 16 (omega arith), to_chars_loop) (omega arith, omega arith)
loop_length (suc fuel) (suc k) v shown l h = elim (Bool-cases (ltb v 16)) [
  | inl e ↦ rw (e, to_chars_loop) (omega arith, omega arith)
  | inr e ↦
      let r =
        loop_length fuel k (v / 16) (digit_char (v % 16) ∷ shown) (omega arith) (omega arith) in
      rw (e, to_chars_loop) (omega arith, omega arith)
]

-- The digits of a chunk's size: from one to sixteen of them, all hexadecimal, that write it.
abbrev pub hex_digits : ℕ → Bytes
hex_digits v = to_chars_loop 64 16 v []

pub hex_digits-written :
    (v : ℕ)
    → v < 2 ^ 64
    → All IsHex (hex_digits v)
      × (hex_number (hex_digits v) ≡ v)
      × (hex_digits v ≢ [])
      × (length (hex_digits v) ≤ 16)
unfolding hex_number
hex_digits-written v h =
    let w = loop-Written 64 v [] (omega arith) tt in
    let (m, n) = loop_length 64 15 v [] (omega arith) (omega arith) in
    (w.digits, w.value, λ e. absurd (let z = ap length e in omega arith), n)
