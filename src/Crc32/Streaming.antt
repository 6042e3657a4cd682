-- ===== src/Crc32/Streaming.antt =====
-- The checksum of a text in pieces, and what the table holds.
use http.Base.{ℕ, zero, suc, ◌+◌, ◌^◌, ◌<◌, ◌≡◌, refl, ◌∙◌, ap, [], ◌∷◌, ◌++◌, Bytes, arith}
use http.Crc32.{crc_bits, make_table, entry, complement, crc_step, crc_loop, crc32}

crc_step_bound : (crc byte : ℕ) → crc_step crc byte < 2 ^ 32
unfolding crc_step
crc_step_bound crc byte = omega arith

crc_loop_bound : (crc : ℕ) (s : Bytes) → crc < 2 ^ 32 → crc_loop crc s < 2 ^ 32
unfolding crc_loop
crc_loop_bound crc [] h = h
crc_loop_bound crc (c ∷ s) h = crc_loop_bound (crc_step crc c) s (crc_step_bound crc c)

crc_loop-append : (crc : ℕ) (s t : Bytes) → crc_loop crc (s ++ t) ≡ crc_loop (crc_loop crc s) t
unfolding crc_loop
crc_loop-append crc [] t = refl
crc_loop-append crc (c ∷ s) t = crc_loop-append (crc_step crc c) s t

-- The checksum of two pieces is that of the second, from the checksum of the first on.
pub crc32-append : (s t : Bytes) (crc : ℕ) → crc32 (s ++ t) crc ≡ crc32 t (crc32 s crc)
unfolding crc32
crc32-append s t crc =
    let c = crc_loop (complement crc) s in
    let b = crc_loop_bound (complement crc) s (omega arith) in
    let back : c ≡ complement (complement c) = omega arith in
    ap complement (crc_loop-append (complement crc) s t ∙ ap (λ k. crc_loop k t) back)

-- An entry of the table.
pub entry-make_table : (i n k : ℕ) → k < n → entry (make_table i n) k ≡ crc_bits 8 (i + k)
unfolding entry make_table
entry-make_table i zero k h = absurd (omega arith)
entry-make_table i (suc n) zero h = ap (crc_bits 8) (omega arith)
entry-make_table i (suc n) (suc k) h =
    entry-make_table (i + 1) n k (omega arith) ∙ ap (crc_bits 8) (omega arith)
