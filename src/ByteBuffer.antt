-- ===== src/ByteBuffer.antt =====
-- The input buffer of a connection: src/util/byte_buffer.hpp.
pub mod Prepare
pub mod Queue
use http.Base.{
  ℕ, zero, suc, ◌+◌, ◌-◌, ◌*◌, Bool, true, false, ◌&&◌, List, [], ◌∷◌, ◌++◌, Bytes, ltb, leb, ◌==◌,
  if◌then◌else◌, length, take, drop, replicate,
}

-- The capacity is the length of the memory.
pub record ByteBuffer : Type 0 where
  pub memory : Bytes
  pub rpos : ℕ
  pub wpos : ℕ

abbrev pub empty_buffer : ByteBuffer
empty_buffer = record { memory = []; rpos = 0; wpos = 0 }

abbrev pub capacity : ByteBuffer → ℕ
capacity b = length b.memory

abbrev pub size : ByteBuffer → ℕ
size b = b.wpos - b.rpos

abbrev pub is_drained : ByteBuffer → Bool
is_drained b = b.rpos == b.wpos

unfoldable pub readable : ByteBuffer → Bytes
readable b = take (size b) (drop b.rpos b.memory)

unfoldable pub consume : ByteBuffer → ℕ → ByteBuffer
consume b n =
    if b.rpos + n == b.wpos then record b { rpos = 0; wpos = 0 } else record b { rpos = b.rpos + n }

-- `while (new_cap - live < n) new_cap *= 2`. Each round adds a byte at least, so `n` rounds are enough.
unfoldable pub grow_loop : ℕ → ℕ → ℕ → ℕ → ℕ
grow_loop zero new_cap live n = new_cap
grow_loop (suc fuel) new_cap live n = elim (ltb (new_cap - live) n) [
  | true ↦ grow_loop fuel (new_cap * 2) live n
  | false ↦ new_cap
]

-- Writes bytes from a place on: `memcpy`, `memmove`, or the kernel in `recv`.
unfoldable pub write_at : Bytes → ℕ → Bytes → Bytes
write_at memory at s = take at memory ++ (s ++ drop (at + length s) memory)

-- `prepare`; the place it returns is `wpos` of the new buffer. What `new char[]` leaves in memory is
-- written as zeros, and is not read.
unfoldable pub prepare : ByteBuffer → ℕ → ByteBuffer
prepare b n =
    let live = size b in
    if leb n (capacity b - b.wpos)
    then b
    else if ltb 0 b.rpos && leb n (capacity b - live)
    then record { memory = write_at b.memory 0 (readable b); rpos = 0; wpos = live }
    else let new_cap = grow_loop n (if capacity b == 0 then 4096 else capacity b) live n in
      record { memory = write_at (replicate new_cap 0) 0 (readable b); rpos = 0; wpos = live }

abbrev pub writable : ByteBuffer → ℕ
writable b = capacity b - b.wpos

unfoldable pub commit : ByteBuffer → ℕ → ByteBuffer
commit b n = record b { wpos = b.wpos + n }

-- What a caller writes to the place that `prepare` has returned.
unfoldable pub fill : ByteBuffer → Bytes → ByteBuffer
fill b s = record b { memory = write_at b.memory b.wpos s }

-- A read of at most `n` bytes into the room that `prepare` gives.
unfoldable pub receive : ByteBuffer → ℕ → Bytes → ByteBuffer
receive b n s = commit (fill (prepare b n) s) (length s)
