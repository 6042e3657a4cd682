-- ===== src/Crc32/Register.antt =====
-- The checksum as the shift register that the standard describes: one bit of the data at a time, and no
-- table.
use Prim.Native.Nat.{bit_xor}
use http.Base.{
  ℕ, zero, suc, ◌+◌, ◌*◌, ◌-◌, ◌/◌, ◌%◌, ◌^◌, ◌<◌, ◌≡◌, refl, ◌∙◌, ap, sym, List, [], ◌∷◌, ◌++◌,
  Bytes, arith, true, false, ◌==◌, ==_iff, if◌then◌else◌, Bool-cases, inl, inr,
}
use http.Crc32.{crc_bit, crc_bits, make_table, entry, complement, crc_step, crc_loop, crc32}
use http.Crc32.Xor.{
  zero-bit_xor, bit_xor-zero, bit_xor_half, bit_xor_odd, bit_xor_assoc, bit_xor_cancel,
  bit_xor_bound,
}
use http.Crc32.Streaming.{entry-make_table}

-- The exponents of the polynomial of IEEE 802.3 below the 32nd.
abbrev exponents : List ℕ
exponents = 26 ∷ 23 ∷ 22 ∷ 16 ∷ 12 ∷ 11 ∷ 10 ∷ 8 ∷ 7 ∷ 5 ∷ 4 ∷ 2 ∷ 1 ∷ 0 ∷ []

-- In the register the highest exponent is the lowest bit.
abbrev reflected : List ℕ → ℕ
reflected [] = 0
reflected (e ∷ es) = 2 ^ (31 - e) + reflected es

-- A bit of the data comes: the register is shifted, and the polynomial is added to it where the bit that
-- leaves it is not the one that comes.
unfoldable pub shift : ℕ → ℕ → ℕ
shift r b = if r % 2 == b then r / 2 else bit_xor (reflected exponents) (r / 2)

-- Bit after bit.
unfoldable pub divide : ℕ → List ℕ → ℕ
unfolding shift
divide r [] = r
divide r (b ∷ bs) = divide (shift r b) bs

-- The lowest bits of a number, the lowest first.
unfoldable pub low_bits : ℕ → ℕ → List ℕ
low_bits zero y = []
low_bits (suc n) y = (y % 2) ∷ low_bits n (y / 2)

-- The bits of a text.
unfoldable pub bits_of : Bytes → List ℕ
unfolding low_bits
bits_of [] = []
bits_of (c ∷ s) = low_bits 8 c ++ bits_of s

halves : ℕ → ℕ → ℕ
halves zero y = y
halves (suc n) y = halves n (y / 2)

crc_bit-shift : (c y : ℕ) → crc_bit (bit_xor c y) ≡ bit_xor (shift c (y % 2)) (y / 2)
unfolding crc_bit shift
crc_bit-shift c y = elim (Bool-cases (c % 2 == y % 2)) [
  | inl e ↦
      let same : c % 2 ≡ y % 2 = (==_iff (c % 2) (y % 2)).0 e in
      let even : (bit_xor c y % 2 == 1) ≡ false = ground (arith, bit_xor_odd c y) in
      rw (even, crc_bit, e, shift) (bit_xor_half c y)
  | inr e ↦
      let odd : (bit_xor c y % 2 == 1) ≡ true = ground (arith, bit_xor_odd c y) in
      rw (odd, crc_bit, e, shift)
        (ap (bit_xor 0xEDB88320) (bit_xor_half c y)
          ∙ sym (bit_xor_assoc 0xEDB88320 (c / 2) (y / 2)))
]

crc_bits-divide :
    (n c y : ℕ) → crc_bits n (bit_xor c y) ≡ bit_xor (divide c (low_bits n y)) (halves n y)
unfolding crc_bits divide low_bits halves
crc_bits-divide zero c y = refl
crc_bits-divide (suc n) c y =
    ap (crc_bits n) (crc_bit-shift c y) ∙ crc_bits-divide n (shift c (y % 2)) (y / 2)

halves-bit_xor : (n a b : ℕ) → halves n (bit_xor a b) ≡ bit_xor (halves n a) (halves n b)
unfolding halves
halves-bit_xor zero a b = refl
halves-bit_xor (suc n) a b = ap (halves n) (bit_xor_half a b) ∙ halves-bit_xor n (a / 2) (b / 2)

halves_eight : (y : ℕ) → halves 8 y ≡ y / 256
unfolding halves
halves_eight y = omega arith

low_bits_more :
    (n m y : ℕ)
    → ((y % (2 * m)) / 2 ≡ (y / 2) % m)
    → (y % (2 * m)) % 2 ≡ y % 2
    → low_bits n (y / 2) ≡ low_bits n ((y / 2) % m)
    → low_bits (suc n) y ≡ low_bits (suc n) (y % (2 * m))
unfolding low_bits
low_bits_more n m y e f h = rw (e, f) (ap (◌∷◌ (y % 2)) h)

low_bits_eight : (y : ℕ) → low_bits 8 y ≡ low_bits 8 (y % 256)
low_bits_eight y = low_bits_more 7 128 y (omega arith) (omega arith) (
    low_bits_more 6 64 _ (omega arith) (omega arith) (
      low_bits_more 5 32 _ (omega arith) (omega arith) (
        low_bits_more 4 16 _ (omega arith) (omega arith) (
          low_bits_more 3 8 _ (omega arith) (omega arith) (
            low_bits_more 2 4 _ (omega arith) (omega arith) (
              low_bits_more 1 2 _ (omega arith) (omega arith)
                (low_bits_more 0 1 _ (omega arith) (omega arith) (unfold low_bits in refl))))))))

shift_bound : (r b : ℕ) → r < 2 ^ 32 → shift r b < 2 ^ 32
unfolding shift
shift_bound r b h = elim (Bool-cases (r % 2 == b)) [
  | inl e ↦ rw (e, shift) (omega arith)
  | inr e ↦ rw (e, shift) (bit_xor_bound 32 0xEDB88320 (r / 2) (omega arith) (omega arith))
]

divide_bound : (r : ℕ) (bs : List ℕ) → r < 2 ^ 32 → divide r bs < 2 ^ 32
unfolding divide
divide_bound r [] h = h
divide_bound r (b ∷ bs) h = divide_bound (shift r b) bs (shift_bound r b h)

divide-append : (r : ℕ) (bs cs : List ℕ) → divide r (bs ++ cs) ≡ divide (divide r bs) cs
unfolding divide
divide-append r [] cs = refl
divide-append r (b ∷ bs) cs = divide-append (shift r b) bs cs

-- A table entry is what the register makes of the bits of its index.
crc_bits-low : (x : ℕ) → crc_bits 8 (x % 256) ≡ divide 0 (low_bits 8 x)
crc_bits-low x =
    ap (crc_bits 8) (sym (zero-bit_xor (x % 256)))
    ∙ crc_bits-divide 8 0 (x % 256)
    ∙ ap (bit_xor (divide 0 (low_bits 8 (x % 256)))) (halves_eight (x % 256) ∙ omega arith)
    ∙ bit_xor-zero _
    ∙ ap (divide 0) (sym (low_bits_eight x))

crc_byte-divide :
    (crc byte : ℕ)
    → bit_xor (crc_bits 8 (bit_xor crc byte % 256)) (crc / 256) ≡ divide crc (low_bits 8 byte)
crc_byte-divide crc byte =
    let x = bit_xor crc byte in
    let a = divide 0 (low_bits 8 x) in
    let d = divide crc (low_bits 8 byte) in
    let whole : bit_xor a (halves 8 x) ≡ bit_xor d (halves 8 byte) =
      sym (crc_bits-divide 8 0 x) ∙ ap (crc_bits 8) (zero-bit_xor x) ∙ crc_bits-divide 8 crc byte in
    let parts : bit_xor (bit_xor a (halves 8 crc)) (halves 8 byte) ≡ bit_xor d (halves 8 byte) =
      bit_xor_assoc a (halves 8 crc) (halves 8 byte)
      ∙ ap (bit_xor a) (sym (halves-bit_xor 8 crc byte))
      ∙ whole in
    ap (λ e. bit_xor e (crc / 256)) (crc_bits-low x)
    ∙ ap (bit_xor a) (sym (halves_eight crc))
    ∙ bit_xor_cancel (bit_xor a (halves 8 crc)) d (halves 8 byte) parts

crc_step-divide : (crc byte : ℕ) → crc < 2 ^ 32 → crc_step crc byte ≡ divide crc (low_bits 8 byte)
unfolding crc_step
crc_step-divide crc byte h =
    let looked_up : entry (make_table 0 256) (bit_xor crc byte % 256)
        ≡ crc_bits 8 (bit_xor crc byte % 256) =
      entry-make_table 0 256 (bit_xor crc byte % 256) (omega arith)
      ∙ ap (crc_bits 8) (omega arith) in
    let same : bit_xor (entry (make_table 0 256) (bit_xor crc byte % 256)) (crc / 256)
        ≡ divide crc (low_bits 8 byte) =
      ap (λ e. bit_xor e (crc / 256)) looked_up ∙ crc_byte-divide crc byte in
    ap (λ v. v % 2 ^ 32) same ∙ omega (arith, divide_bound crc (low_bits 8 byte) h)

crc_loop-divide : (crc : ℕ) (s : Bytes) → crc < 2 ^ 32 → crc_loop crc s ≡ divide crc (bits_of s)
unfolding crc_loop bits_of
crc_loop-divide crc [] h = unfold divide in refl
crc_loop-divide crc (c ∷ s) h =
    let e = crc_step-divide crc c h in
    ap (λ k. crc_loop k s) e
    ∙ crc_loop-divide (divide crc (low_bits 8 c)) s (divide_bound crc (low_bits 8 c) h)
    ∙ sym (divide-append crc (low_bits 8 c) (bits_of s))

-- The checksum is the complement of the register that, from the complement of the start on, has taken the
-- bits of the text one at a time, of each byte the lowest first: it is shifted for each bit, and where the
-- bit that leaves it is not the one that comes, the polynomial of IEEE 802.3, given by its exponents, is added.
pub crc32-divide :
    (s : Bytes) (crc : ℕ) → crc32 s crc ≡ complement (divide (complement crc) (bits_of s))
unfolding crc32
crc32-divide s crc = ap complement (crc_loop-divide (complement crc) s (omega arith))
