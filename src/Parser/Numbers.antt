-- ===== src/Parser/Numbers.antt =====
-- The numbers of a request: Content-Length and the size of a chunk.
pub mod Radix
pub mod Bits
pub mod Lengths
use Prim.Native.Nat.{bit_or}
use http.Base.{
  ℕ, zero, suc, ◌+◌, ◌-◌, ◌*◌, ◌^◌, Bool, true, false, not, ◌&&◌, ◌||◌, [], ◌∷◌, Option, none, some,
  Bytes, ltb, ◌==◌, if◌then◌else◌, length, drop, find, before,
}
use http.Ascii.{within, is_empty, trim_ows}
use http.Parser.{wrap}

unfoldable pub is_digit : ℕ → Bool
is_digit c = within b'0' b'9' c

-- `none` is -1.
unfoldable pub hex_value : ℕ → Option ℕ
hex_value c =
    if within b'0' b'9' c
    then some (c - b'0')
    else if within b'a' b'f' c
    then some (c - b'a' + 10)
    else if within b'A' b'F' c
    then some (c - b'A' + 10)
    else none

-- `v = v * 10 + (c - '0')` in `std::uint64_t`.
unfoldable pub decimal_loop : Bytes → ℕ → Option ℕ
unfolding is_digit
decimal_loop [] v = some v
decimal_loop (c ∷ s) v =
    if not (is_digit c) then none else decimal_loop s (wrap (v * 10 + (c - b'0')))

-- `none` where the source returns false.
unfoldable pub parse_decimal : Bytes → Option ℕ
unfolding decimal_loop
parse_decimal s = if is_empty s || ltb 19 (length s) then none else decimal_loop s 0

-- The loop over the members of a Content-Length list. Each round drops at least a comma, so
-- `length value + 1` rounds are enough.
unfoldable pub content_length_loop : ℕ → Bool → ℕ → Bytes → Option ℕ
unfolding parse_decimal trim_ows find before
content_length_loop zero first out value = none
content_length_loop (suc fuel) first out value =
    let comma = find b',' value in
    elim (parse_decimal (trim_ows (before comma value))) [
      | none ↦ none
      | some n ↦ elim (not first && not (n == out)) [
        | true ↦ none
        | false ↦ elim comma [
          | none ↦ some n
          | some i ↦ content_length_loop fuel false n (drop (i + 1) value)
        ]
      ]
    ]

unfoldable pub parse_content_length : Bytes → Option ℕ
unfolding content_length_loop
parse_content_length value = content_length_loop (length value + 1) true 0 value

-- `size = (size << 4) | v` in `std::uint64_t`, over the digits of a chunk size.
unfoldable pub hex_loop : Bytes → ℕ → Option ℕ
unfolding hex_value
hex_loop [] size = some size
hex_loop (c ∷ s) size = elim (hex_value c) [
  | none ↦ none
  | some v ↦ hex_loop s (bit_or (wrap (size * 2 ^ 4)) v)
]
