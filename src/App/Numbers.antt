-- ===== src/App/Numbers.antt =====
-- What `parse_u64` accepts.
use http.Base.{
  ℕ, ◌+◌, ◌-◌, ◌*◌, ◌^◌, ◌<◌, true, [], ◌∷◌, ◌≡◌, ◌≢◌, ◌↔◌, refl, ◌∙◌, ap, sym, some, Bytes, ltb,
  ltb→lt, lt→ltb, All, Bool-cases, inl, inr,
}
use http.Ascii.{is_empty}
use http.Parser.Numbers.{is_digit}
use http.Parser.Numbers.Radix.{IsDigit, decimal_value, decimal_digit, radix_value}
use http.App.{leading_digits, from_chars, parse_u64}

pub leading_digits-value :
    (s : Bytes) (v : ℕ)
    → All IsDigit s
    → leading_digits s v ≡ (radix_value 10 decimal_digit s v, [])
unfolding leading_digits decimal_digit
leading_digits-value [] v h = refl
leading_digits-value (c ∷ s) v h = rw h.0 (leading_digits-value s (v * 10 + (c - b'0')) h.1)

leading_digits-IsDigit : (s : Bytes) (v : ℕ) → (leading_digits s v).1 ≡ [] → All IsDigit s
unfolding leading_digits
leading_digits-IsDigit [] v h = tt
leading_digits-IsDigit (c ∷ s) v h = elim (Bool-cases (is_digit c)) [
  | inl e ↦ (e, leading_digits-IsDigit s (v * 10 + (c - b'0')) (rw e at h))
  | inr e ↦ absurd (let k = rw e at h in cc)
]

is_empty-nil : (s : Bytes) → is_empty s ≡ true → s ≡ []
is_empty-nil [] e = refl
is_empty-nil (c ∷ s) e = absurd (cc)

-- What the tests of `parse_u64` leave.
parse_u64-cons :
    (c : ℕ) (s : Bytes) (v : ℕ)
    → parse_u64 (c ∷ s) ≡ some v
    → ((leading_digits (c ∷ s) 0).1 ≡ []) × ((leading_digits (c ∷ s) 0).0 ≡ v) × (v < 2 ^ 64)
unfolding parse_u64 from_chars
parse_u64-cons c s v h = elim (Bool-cases (is_digit c)) [
  | inr e ↦ absurd (let k = rw e at h in cc)
  | inl e ↦
      let r = leading_digits s (0 + (c - b'0')) in
      elim (Bool-cases (ltb r.0 (2 ^ 64))) [
        | inr f ↦ absurd (let k = rw (e, f) at h in cc)
        | inl f ↦ elim (Bool-cases (is_empty r.1)) [
          | inr g ↦ absurd (let k = rw (e, f, g) at h in cc)
          | inl g ↦
              let k : some r.0 ≡ some v = rw (e, f, g) at h in
              rw e (
                is_empty-nil r.1 g,
                cc,
                let same : r.0 ≡ v = cc in rw same at (ltb→lt r.0 (2 ^ 64) f),
              )
        ]
      ]
]

-- `parse_u64` reads exactly the non-empty strings of digits that write a number of 64 bits, and gives
-- that number.
pub parse_u64_iff :
    (s : Bytes) (v : ℕ)
    → (parse_u64 s ≡ some v) ↔ ((s ≢ []) × All IsDigit s × (decimal_value s ≡ v) × (v < 2 ^ 64))
unfolding decimal_value parse_u64 decimal_digit
parse_u64_iff [] v = (λ h. absurd (cc), λ k. absurd (k.0 refl))
parse_u64_iff (c ∷ s) v = (
  λ h.
      let (a, b, l) = parse_u64-cons c s v h in
      let digits = leading_digits-IsDigit (c ∷ s) 0 a in
      (λ e. cc, digits, ap (λ r. r.0) (sym (leading_digits-value (c ∷ s) 0 digits)) ∙ b, l),
  λ k.
      let value = leading_digits-value s (0 + (c - b'0')) k.1.1 in
      let number : radix_value 10 decimal_digit s (0 + (c - b'0')) ≡ v = k.2 in
      rw (k.1.0, value, number, lt→ltb v (2 ^ 64) k.3) refl,
)
