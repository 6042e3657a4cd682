-- ===== src/Parser/Numbers/Lengths.antt =====
-- Content-Length as a list of numbers, and the size of a chunk.
use Prim.Native.Nat.{bit_or}
use http.Base.{
  ℕ, zero, suc, ◌+◌, ◌*◌, ◌^◌, ◌≤◌, ◌<◌, ◌≡◌, ◌≢◌, refl, ◌∙◌, ◌↔◌, [], ◌∷◌, Bytes, Bool, true,
  false, some, none, Option, Option-cases, inl, inr, ◌⊎◌, arith, length, All, ap, sym, subst, find,
  before, drop, take, length-drop, ◌%◌,
}
use http.Ascii.{trim_ows}
use http.Headers.Tokens.{split_on, split_on-none, split_on-some, find_bound}
use http.Parser.{wrap}
use http.Parser.Numbers.{
  hex_value, hex_loop, parse_decimal, content_length_loop, parse_content_length,
}
use http.Parser.Numbers.Bits.{bit_or-nibble}
use http.Parser.Numbers.Radix.{radix_value, radix_value_ge, radix_value_lt, power_mono}

-- The members are all numbers, all of them `n`.
abbrev pub IsMember : ℕ → Bytes → Type 0
IsMember n m = parse_decimal (trim_ows m) ≡ some n

-- A member after the first must repeat it.
abbrev Repeats : Bool → ℕ → ℕ → Type 0
Repeats true n out = Unit
Repeats false n out = n ≡ out

content_length_loop_last :
    (fuel : ℕ) (first : Bool) (out : ℕ) (value : Bytes) (n : ℕ)
    → find b',' value ≡ none
    → (content_length_loop (suc fuel) first out value ≡ some n)
      ↔ ((parse_decimal (trim_ows value) ≡ some n) × Repeats first n out)
unfolding content_length_loop before
content_length_loop_last fuel true out value n e =
    elim (Option-cases (parse_decimal (trim_ows value))) [
      | inl p ↦ (λ h. absurd (ground arith), λ k. absurd (ground arith))
      | inr (k, p) ↦ (λ h. (ground arith, tt), λ k. ground arith)
    ]
content_length_loop_last fuel false out value n e =
    elim (Option-cases (parse_decimal (trim_ows value))) [
      | inl p ↦ (λ h. absurd (ground arith), λ k. absurd (ground arith))
      | inr (k, p) ↦ (λ h. ground arith, λ k. ground arith)
    ]

content_length_loop_more :
    (fuel : ℕ) (first : Bool) (out : ℕ) (value : Bytes) (n i : ℕ)
    → find b',' value ≡ some i
    → (content_length_loop (suc fuel) first out value ≡ some n) ↔ (
        (k : ℕ) × (parse_decimal (trim_ows (take i value)) ≡ some k)
        × Repeats first k out
        × (content_length_loop fuel false k (drop (suc i) value) ≡ some n))
unfolding content_length_loop before
content_length_loop_more fuel true out value n i e =
    elim (Option-cases (parse_decimal (trim_ows (take i value)))) [
      | inl p ↦ (λ h. absurd (ground arith), λ k. absurd (ground arith))
      | inr (k, p) ↦ (λ h. (k, p, tt, ground arith), λ k. ground arith)
    ]
content_length_loop_more fuel false out value n i e =
    elim (Option-cases (parse_decimal (trim_ows (take i value)))) [
      | inl p ↦ (λ h. absurd (ground arith), λ k. absurd (ground arith))
      | inr (k, p) ↦ (λ h. (k, p, ground arith, ground arith), λ k. ground arith)
    ]

content_length_loop_iff :
    (fuel : ℕ) (first : Bool) (out : ℕ) (value : Bytes) (n : ℕ)
    → length value < fuel
    → (content_length_loop fuel first out value ≡ some n)
      ↔ (All (IsMember n) (split_on b',' value) × Repeats first n out)
content_length_loop_iff zero first out value n l = absurd (omega arith)
content_length_loop_iff (suc fuel) first out value n l = elim (Option-cases (find b',' value)) [
  | inl e ↦
      let (f, g) = content_length_loop_last fuel first out value n e in
      rw (split_on-none b',' value e) (λ h. let (x, y) = f h in ((x, tt), y), λ k. g (k.0.0, k.1))
  | inr (i, e) ↦
      let (f, g) = content_length_loop_more fuel first out value n i e in
      let later = λ (k : ℕ).
        content_length_loop_iff fuel false k (drop (suc i) value) n
          (omega (arith, length-drop (suc i) value, find_bound b',' value i e)) in
      rw (split_on-some b',' value i e) (
        λ h.
            let (k, p, r, t) = f h in
            let (all, same) = (later k).0 t in
            ((p ∙ ap some (sym same), all), subst (λ x. Repeats first x out) (sym same) r),
        λ w. g (n, w.0.0, w.1, (later n).1 (w.0.1, refl)),
      )
]

-- `parse_content_length` gives `n` exactly when every member of the comma-separated list is, blanks
-- aside, a decimal number that is read as `n`.
pub parse_content_length_iff :
    (value : Bytes) (n : ℕ)
    → (parse_content_length value ≡ some n) ↔ All (IsMember n) (split_on b',' value)
unfolding parse_content_length
parse_content_length_iff value n =
    let (f, g) = content_length_loop_iff (length value + 1) true 0 value n (omega arith) in
    (λ h. (f h).0, λ k. g (k, tt))

-- The value of a hexadecimal digit, and 0 for another byte.
abbrev pub hex_weight : ℕ → ℕ
hex_weight c = elim (hex_value c) [ none ↦ 0 | some v ↦ v ]

abbrev pub IsHex : ℕ → Type 0
IsHex c = hex_value c ≢ none

-- The number that a string of hexadecimal digits writes.
unfoldable pub hex_number : Bytes → ℕ
hex_number s = radix_value 16 hex_weight s 0

pub hex_weight-some : (c v : ℕ) → hex_value c ≡ some v → hex_weight c ≡ v
hex_weight-some c v e = ap (λ (o : Option ℕ). elim o [ none ↦ 0 | some v ↦ v ]) e

hex_weight_small : (c : ℕ) → hex_weight c < 16
unfolding hex_value
hex_weight_small c = ground arith

hex_weights_small : (s : Bytes) → All (λ c. hex_weight c < 16) s
hex_weights_small [] = tt
hex_weights_small (c ∷ s) = (hex_weight_small c, hex_weights_small s)

hex_loop_step :
    (c : ℕ) (s : Bytes) (size v : ℕ)
    → hex_value c ≡ some v
    → hex_loop (c ∷ s) size ≡ hex_loop s (bit_or (wrap (size * 2 ^ 4)) v)
unfolding hex_loop
hex_loop_step c s size v e = rw (e, hex_loop)

hex_step :
    (size v : ℕ) → v < 16 → size * 16 + v < 2 ^ 64 → bit_or (wrap (size * 2 ^ 4)) v ≡ size * 16 + v
hex_step size v h l =
    let same : (size * 16) % 2 ^ 64 ≡ size * 16 = omega arith in rw same (bit_or-nibble size v h)

hex_loop-value :
    (s : Bytes) (size : ℕ)
    → All IsHex s
    → radix_value 16 hex_weight s size < 2 ^ 64
    → hex_loop s size ≡ some (radix_value 16 hex_weight s size)
hex_loop-value [] size h l = unfold hex_loop in refl
hex_loop-value (c ∷ s) size h l = elim (Option-cases (hex_value c)) [
  | inl e ↦ absurd (h.0 e)
  | inr (v, e) ↦
      let d = hex_weight-some c v e in
      let below : size * 16 + v < 2 ^ 64 =
        omega
          (arith, radix_value_ge 16 hex_weight s (size * 16 + hex_weight c) (omega arith), l, d) in
      let next : bit_or (wrap (size * 2 ^ 4)) v ≡ size * 16 + hex_weight c =
        hex_step size v (omega (arith, hex_weight_small c, d)) below
        ∙ ap (λ x. size * 16 + x) (sym d) in
      hex_loop_step c s size v e ∙ rw next (hex_loop-value s (size * 16 + hex_weight c) h.1 l)
]

hex_loop-IsHex : (s : Bytes) (size n : ℕ) → hex_loop s size ≡ some n → All IsHex s
unfolding hex_loop
hex_loop-IsHex [] size n h = tt
hex_loop-IsHex (c ∷ s) size n h = elim (Option-cases (hex_value c)) [
  | inl e ↦ absurd (ground arith)
  | inr (v, e) ↦
      (λ z. cc, hex_loop-IsHex s (bit_or (wrap (size * 2 ^ 4)) v) n (rw (e, hex_loop) at h))
]

-- On at most 16 bytes the loop gives the number that the digits of `hex_value` write.
pub hex_loop_iff :
    (s : Bytes) (n : ℕ)
    → length s ≤ 16
    → (hex_loop s 0 ≡ some n) ↔ (All IsHex s × (n ≡ hex_number s))
unfolding hex_number
hex_loop_iff s n l =
    let fits : radix_value 16 hex_weight s 0 < 2 ^ 64 = omega (
      arith,
      radix_value_lt 16 hex_weight s 0 (hex_weights_small s),
      power_mono 16 (length s) 16 (omega arith) l,
    ) in
    (
      λ h.
          let digits = hex_loop-IsHex s 0 n h in
          let value = sym h ∙ hex_loop-value s 0 digits fits in (digits, cc),
      λ k. hex_loop-value s 0 k.0 fits ∙ ap some (sym k.1),
    )

-- A decimal digit, or a letter from `a` or `A` to the sixth, and its value.
abbrev pub HexDigit : ℕ → ℕ → Type 0
HexDigit c d =
    ((48 ≤ c) × (c ≤ 57) × (c ≡ 48 + d))
    ⊎ (((97 ≤ c) × (c ≤ 102) × (c ≡ 87 + d)) ⊎ ((65 ≤ c) × (c ≤ 70) × (c ≡ 55 + d)))

-- Behind digits that write `v`, the string goes on to write `n`.
pub data HexNumber : Bytes → ℕ → ℕ → Type 0 where
  ends : {v : ℕ} → HexNumber [] v v
  digit :
      {c v n : ℕ} {s : Bytes} (d : ℕ)
      → HexDigit c d
      → HexNumber s (v * 16 + d) n
      → HexNumber (c ∷ s) v n

hex_value-HexDigit : (c d : ℕ) → (hex_value c ≡ some d) ↔ HexDigit c d
unfolding hex_value
hex_value-HexDigit c d = (λ h. ground arith, λ k. ground arith)

HexNumber-radix_value :
    (s : Bytes) (v : ℕ) → All IsHex s → HexNumber s v (radix_value 16 hex_weight s v)
HexNumber-radix_value [] v h = ends
HexNumber-radix_value (c ∷ s) v h = elim (Option-cases (hex_value c)) [
  | inl e ↦ absurd (h.0 e)
  | inr (d, e) ↦
      let w = hex_weight-some c d e in
      digit (hex_weight c) ((hex_value-HexDigit c (hex_weight c)).0 (rw w e))
        (HexNumber-radix_value s (v * 16 + hex_weight c) h.1)
]

radix_value-HexNumber :
    {s : Bytes} {v n : ℕ} → HexNumber s v n → All IsHex s × (n ≡ radix_value 16 hex_weight s v)
radix_value-HexNumber ends = (tt, refl)
radix_value-HexNumber (digit {c} {v} {n} {s} d h k) =
    let e = (hex_value-HexDigit c d).1 h in
    let (digits, value) = radix_value-HexNumber k in
    (
      (λ z. cc, digits),
      value ∙ ap (λ w. radix_value 16 hex_weight s (v * 16 + w)) (sym (hex_weight-some c d e)),
    )

-- On at most 16 bytes the loop of `parse_chunk_size` gives `n` exactly where they are hexadecimal digits, the
-- letters in either case, that write `n`: no bit of it is shifted out.
pub hex_loop-HexNumber :
    (s : Bytes) (n : ℕ) → length s ≤ 16 → (hex_loop s 0 ≡ some n) ↔ HexNumber s 0 n
unfolding hex_number
hex_loop-HexNumber s n l =
    let (f, g) = hex_loop_iff s n l in
    (
      λ h.
          let (digits, e) = f h in
          subst (λ k. HexNumber s 0 k) (sym e) (HexNumber-radix_value s 0 digits),
      λ k. g (radix_value-HexNumber k),
    )
