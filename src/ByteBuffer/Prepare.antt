-- ===== src/ByteBuffer/Prepare.antt =====
-- What `prepare` promises: room, and the same bytes to read.
use http.Base.{
  ℕ, zero, suc, ◌+◌, ◌-◌, ◌*◌, ◌≤◌, ◌<◌, ◌≡◌, refl, sym, ◌&&◌, ◌++◌, Bytes, ltb, leb, ◌==◌,
  if◌then◌else◌, length, take, drop, replicate, arith, length-append, length-take, length-drop,
  take-length, length-replicate, if_each,
}
use http.ByteBuffer.{ByteBuffer, capacity, size, readable, grow_loop, write_at, prepare, writable}

-- The readable part lies within the memory.
pub record IsValid (b : ByteBuffer) : Type 0 where
  pub ordered : b.rpos ≤ b.wpos
  pub within : b.wpos ≤ capacity b

grow_loop_enough :
    (fuel new_cap live n : ℕ)
    → 0 < new_cap
    → live ≤ new_cap
    → live + n ≤ new_cap + fuel
    → live + n ≤ grow_loop fuel new_cap live n
unfolding grow_loop
grow_loop_enough zero new_cap live n p l f = omega arith
grow_loop_enough (suc fuel) new_cap live n p l f =
    ground (arith, grow_loop_enough fuel (new_cap * 2) live n)

pub length-write_at :
    (m : Bytes) (at : ℕ) (s : Bytes)
    → at + length s ≤ length m
    → length (write_at m at s) ≡ length m
unfolding write_at
length-write_at m at s h = omega (
  arith,
  length-append (take at m) (s ++ drop (at + length s) m),
  length-append s (drop (at + length s) m),
  length-take at m,
  length-drop (at + length s) m,
)

pub length-readable : (b : ByteBuffer) → IsValid b → length (readable b) ≡ size b
unfolding readable
length-readable b v = omega (
  arith,
  v.ordered,
  v.within,
  length-take (size b) (drop b.rpos b.memory),
  length-drop b.rpos b.memory,
)

-- What `prepare` promises: the same bytes to read, and room for `n`.
pub record Prepared (b : ByteBuffer) (n : ℕ) (c : ByteBuffer) : Type 0 where
  pub valid : IsValid c
  pub same : readable c ≡ readable b
  pub room : n ≤ writable c

readable_front :
    (m s : Bytes) (k : ℕ)
    → k ≡ length s
    → readable (record { memory = write_at m 0 s; rpos = 0; wpos = k }) ≡ s
unfolding readable write_at
readable_front m s k e =
    let z : k - 0 ≡ length s = omega arith in rw z (take-length s (drop (0 + length s) m))

-- The readable bytes moved to the front of a memory that has room.
moved :
    (b : ByteBuffer) (n : ℕ) (m : Bytes)
    → IsValid b
    → size b + n ≤ length m
    → Prepared b n (record { memory = write_at m 0 (readable b); rpos = 0; wpos = size b })
moved b n m v h =
    let l = length-readable b v in
    let same = length-write_at m 0 (readable b) (omega (arith, l)) in
    record {
      valid = record { ordered = omega arith; within = omega (arith, same) };
      same = readable_front m (readable b) (size b) (sym l);
      room = omega (arith, same);
    }

-- The first size that `prepare` tries for a new memory.
abbrev first_cap : ByteBuffer → ℕ
first_cap b = if capacity b == 0 then 4096 else capacity b

first_cap_fits : (b : ByteBuffer) → IsValid b → (0 < first_cap b) × (size b ≤ first_cap b)
first_cap_fits b v = ground (arith, v.ordered, v.within)

grown :
    (b : ByteBuffer) (n : ℕ)
    → IsValid b
    → size b + n ≤ length (replicate {A = ℕ} (grow_loop n (first_cap b) (size b) n) 0)
grown b n v =
    let (p, l) = first_cap_fits b v in
    omega (
      arith,
      length-replicate {A = ℕ} (grow_loop n (first_cap b) (size b) n) 0,
      grow_loop_enough n (first_cap b) (size b) n p l (omega arith),
    )

pub prepare-Prepared : (b : ByteBuffer) (n : ℕ) → IsValid b → Prepared b n (prepare b n)
unfolding prepare
prepare-Prepared b n v =
    if_each (Prepared b n) (leb n (capacity b - b.wpos))
      (λ e. record { valid = v; same = refl; room = ground arith })
      λ e.
        if_each (Prepared b n) (ltb 0 b.rpos && leb n (capacity b - size b))
          (λ k. moved b n b.memory v (ground (arith, v.ordered, v.within)))
          (λ k. moved b n (replicate (grow_loop n (first_cap b) (size b) n) 0) v (grown b n v))
