-- ===== src/Crc32.antt =====
-- The checksum CRC-32: src/util/crc32.cpp.
pub mod Streaming
pub mod Register
pub mod Xor
use Prim.Native.Nat.{bit_xor}
use http.Base.{ℕ, zero, suc, ◌+◌, ◌-◌, ◌/◌, ◌%◌, ◌^◌, List, [], ◌∷◌, Bytes, ◌==◌, if◌then◌else◌}

-- One bit of a table entry.
unfoldable pub crc_bit : ℕ → ℕ
crc_bit c = if c % 2 == 1 then bit_xor 0xEDB88320 (c / 2) else c / 2

-- So many bits.
unfoldable pub crc_bits : ℕ → ℕ → ℕ
unfolding crc_bit
crc_bits zero c = c
crc_bits (suc n) c = crc_bits n (crc_bit c)

-- `make_table`: the entries from a number on.
unfoldable pub make_table : ℕ → ℕ → List ℕ
unfolding crc_bits
make_table i zero = []
make_table i (suc n) = crc_bits 8 i ∷ make_table (i + 1) n

-- An element of the table; the index is in range.
unfoldable pub entry : List ℕ → ℕ → ℕ
entry [] i = 0
entry (c ∷ cs) zero = c
entry (c ∷ cs) (suc i) = entry cs i

-- `~` on 32 bits.
abbrev pub complement : ℕ → ℕ
complement c = 2 ^ 32 - 1 - c

-- One byte of the data.
unfoldable pub crc_step : ℕ → ℕ → ℕ
unfolding make_table entry
crc_step crc byte = bit_xor (entry (make_table 0 256) (bit_xor crc byte % 256)) (crc / 256) % 2 ^ 32

unfoldable pub crc_loop : ℕ → Bytes → ℕ
unfolding crc_step
crc_loop crc [] = crc
crc_loop crc (byte ∷ s) = crc_loop (crc_step crc byte) s

unfoldable pub crc32 : Bytes → ℕ → ℕ
unfolding crc_loop
crc32 s crc = complement (crc_loop (complement crc) s)
