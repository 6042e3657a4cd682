-- ===== src/Response/Decimals.antt =====
-- The decimal digits that `std::to_chars` writes, as the program reads them.
use http.Base.{
  ℕ, zero, suc, ◌+◌, ◌*◌, ◌/◌, ◌%◌, ◌^◌, ◌<◌, [], ◌∷◌, ◌≡◌, ◌≢◌, ◌∙◌, ap, Bytes, ltb, ltb→lt,
  lt→ltb, All, arith, Bool-cases, inl, inr,
}
use http.Parser.Numbers.{is_digit}
use http.Parser.Numbers.Radix.{IsDigit, decimal_digit, radix_value, power}
use http.Response.{digit_char, to_chars_loop}

digit_char-IsDigit : (d : ℕ) → d < 10 → IsDigit (digit_char d)
unfolding digit_char is_digit
digit_char-IsDigit d l = ground (arith, l)

digit_char-decimal : (d : ℕ) → d < 10 → decimal_digit (digit_char d) ≡ d
unfolding digit_char decimal_digit
digit_char-decimal d l = ground (arith, l)

-- A number that is written before other digits.
pub record Decimal (v : ℕ) (shown s : Bytes) : Type 0 where
  pub digits : All IsDigit s
  pub value : radix_value 10 decimal_digit s 0 ≡ radix_value 10 decimal_digit shown v
  pub some_digit : s ≢ []

last_digit :
    (fuel v : ℕ) (shown : Bytes)
    → v < 10
    → All IsDigit shown
    → Decimal v shown (to_chars_loop (suc fuel) 10 v shown)
unfolding to_chars_loop
last_digit fuel v shown l h =
    let value : 0 * 10 + decimal_digit (digit_char v) ≡ v = omega (arith, digit_char-decimal v l) in
    rw (lt→ltb v 10 l, to_chars_loop)
      (record {
        digits = (digit_char-IsDigit v l, h);
        value = ap (λ d. radix_value 10 decimal_digit shown d) value;
        some_digit = λ e. cc;
      })

to_chars_loop-Decimal :
    (fuel v : ℕ) (shown : Bytes)
    → v < power 10 (suc fuel)
    → All IsDigit shown
    → Decimal v shown (to_chars_loop (suc fuel) 10 v shown)
unfolding to_chars_loop
to_chars_loop-Decimal zero v shown l h = last_digit zero v shown (omega (arith, l)) h
to_chars_loop-Decimal (suc fuel) v shown l h = elim (Bool-cases (ltb v 10)) [
  | inl e ↦ last_digit (suc fuel) v shown (ltb→lt v 10 e) h
  | inr e ↦
      let small : v % 10 < 10 = omega arith in
      let w =
        to_chars_loop-Decimal fuel (v / 10) (digit_char (v % 10) ∷ shown) (omega (arith, l))
          (digit_char-IsDigit (v % 10) small, h) in
      let whole : v / 10 * 10 + decimal_digit (digit_char (v % 10)) ≡ v =
        omega (arith, digit_char-decimal (v % 10) small) in
      rw (e, to_chars_loop)
        (record {
          digits = w.digits;
          value = w.value ∙ ap (λ d. radix_value 10 decimal_digit shown d) whole;
          some_digit = w.some_digit;
        })
]

-- What `std::to_string` writes of a number of 64 bits.
pub to_decimal-Decimal : (v : ℕ) → v < 2 ^ 64 → Decimal v [] (to_chars_loop 64 10 v [])
to_decimal-Decimal v l = to_chars_loop-Decimal 63 v [] (omega (arith, l)) tt
