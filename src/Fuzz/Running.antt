-- ===== src/Fuzz/Running.antt =====
-- `run` does not depend on its step, and the fuzz target never traps.
use native.Mathlib.Nat.{le_refl}
use http.Ascii.{is_empty}
use http.Base.{
  equal_refl, ==_refl, if◌then◌else◌, ℕ, zero, suc, ◌+◌, ◌-◌, ◌%◌, ◌^◌, ◌≤◌, ◌<◌, true, List, [],
  ◌∷◌, ◌++◌, ◌≡◌, refl, ◌∙◌, ap, sym, some, Bytes, length, take, drop, length-append,
  take-append-drop, append_assoc, drop-drop, drop_all, append-nil, arith, Bool-cases, inl, inr, ltb,
  ltb→lt, ltb→le, min,
}
use http.Parser.{RequestParser, new_parser}
use http.Parser.Feed.{feed}
use http.Parser.Feed.Growth.{SizesFit}
use http.Fuzz.{
  Drained, Outcome, Ran, over, waiting, returned, drain, run, run_loop, test_one_input, passes,
  equal_all, same_outcome, fuzz_limits,
}
use http.Fuzz.Draining.{Drains, fails, breaks, takes, drain-Drains}
use http.Fuzz.Joining.{Between, Drains-append, Drains-Between}

-- What `run` returns, from what its inner loop leaves when all of the input is in `buf`.
abbrev pub result : Drained → Ran
result (over r) = r
result (waiting p buf ds) = returned (record { requests = ds; final_status = 0 })

abbrev Returns : ℕ → ℕ → Bytes → ℕ → RequestParser → Bytes → List Bytes → Type 0
Returns fuel step input pos p buf ds =
    (d : Drained) × (run_loop fuel step input pos p buf ds ≡ some (result d))
    × Drains p (buf ++ drop pos input) ds d

split_rest :
    (n pos : ℕ) (input : Bytes) → take n (drop pos input) ++ drop (pos + n) input ≡ drop pos input
split_rest n pos input = rw (sym (drop-drop pos n input)) (take-append-drop n (drop pos input))

-- The bytes that the outer loop appends to `buf`.
abbrev piece : ℕ → Bytes → ℕ → Bytes
piece step input pos = take (min step (length input - pos)) (drop pos input)

abbrev behind : ℕ → Bytes → ℕ → Bytes
behind step input pos = drop (pos + min step (length input - pos)) input

regroup :
    (step : ℕ) (input : Bytes) (pos : ℕ) (buf : Bytes)
    → (buf ++ piece step input pos) ++ behind step input pos ≡ buf ++ drop pos input
regroup step input pos buf = rw append_assoc (ap (λ t. buf ++ t) (split_rest _ pos input))

fits_regroup :
    (step : ℕ) (input : Bytes) (pos : ℕ) (p : RequestParser) (buf : Bytes)
    → SizesFit p (length buf + length (drop pos input))
    → SizesFit p (length (buf ++ piece step input pos) + length (behind step input pos))
fits_regroup step input pos p buf f =
    rw (sym (length-append (buf ++ piece step input pos) (behind step input pos)))
      (rw (regroup step input pos buf) (rw (length-append buf (drop pos input)) f))

-- A turn of the outer loop, given the turns after it.
run_turn :
    (fuel step : ℕ) (input : Bytes) (pos : ℕ) (p : RequestParser) (buf : Bytes) (ds : List Bytes)
    → ltb pos (length input) ≡ true
    → Between (length (drop pos input)) (waiting p buf ds)
    → ((q : RequestParser) (t : Bytes) (es : List Bytes)
        → Between (length (behind step input pos)) (waiting q t es)
        → Returns fuel step input (pos + min step (length input - pos)) q t es)
    → (c : Drained) → drain p (buf ++ piece step input pos) ds ≡ some c
    → Drains p (buf ++ piece step input pos) ds c
    → Returns (suc fuel) step input pos p buf ds
unfolding run_loop
run_turn fuel step input pos p buf ds e b later (over r) ran drains = (
  over r,
  rw (e, run_loop, ran) refl,
  rw (regroup step input pos buf) at (
      Drains-append (behind step input pos) (over r) (fits_regroup step input pos p buf b.2) drains
        refl),
)
run_turn fuel step input pos p buf ds e b later (waiting q t es) ran drains =
    let fits = fits_regroup step input pos p buf b.2 in
    let (d, run, drains') = later q t es (Drains-Between (behind step input pos) b.1 fits drains) in
    (
      d,
      rw (e, run_loop, ran) run,
      rw (regroup step input pos buf) at
          (Drains-append (behind step input pos) d fits drains drains'),
    )

run_loop-Drains :
    (fuel step : ℕ) (input : Bytes) (pos : ℕ) (p : RequestParser) (buf : Bytes) (ds : List Bytes)
    → 1 ≤ step
    → length input < fuel + pos
    → pos ≤ length input
    → Between (length (drop pos input)) (waiting p buf ds)
    → Returns fuel step input pos p buf ds
unfolding run_loop
run_loop-Drains zero step input pos p buf ds s l f b = absurd (omega (arith, f, l))
run_loop-Drains (suc fuel) step input pos p buf ds s l f b =
    elim (Bool-cases (ltb pos (length input))) [
      | inr e ↦
          let none_left = drop_all pos input (ltb→le pos (length input) e) in
          (
            waiting p buf ds,
            rw (e, run_loop) refl,
            rw none_left (rw (append-nil buf) (breaks b.0.0 b.0.1 b.0.2)),
          )
      | inl e ↦
          let (c, ran, drains) = drain-Drains p (buf ++ piece step input pos) ds b.1 in
          let more = ltb→lt pos (length input) e in
          run_turn fuel step input pos p buf ds e b
            (λ q t es h.
              run_loop-Drains fuel step input (pos + min step (length input - pos)) q t es s
                (omega (arith, s, l, more)) (omega (arith, more)) h)
            c ran drains
    ]

fresh_fits :
    (input : Bytes)
    → length input + 2 < 2 ^ 64
    → SizesFit (new_parser fuzz_limits) (length input + 0)
fresh_fits input l = record {
  line_fits = omega arith;
  chunk_line_fits = omega arith;
  header_fits = omega (arith, l);
}

-- What the inner loop does with all of the input at once does not mention the step.
run-Drains :
    (input : Bytes) (step : ℕ)
    → 1 ≤ step
    → length input + 2 < 2 ^ 64
    → (d : Drained) × (run input step ≡ some (result d))
      × Drains (new_parser fuzz_limits) input [] d
unfolding run feed
run-Drains input step s l =
    let zero_more : length input + 0 ≡ 0 + length input = omega arith in
    run_loop-Drains (length input + 1) step input 0 (new_parser fuzz_limits) [] [] s (omega arith)
      (omega arith) ((refl, refl, refl), (refl, refl), rw zero_more at (fresh_fits input l))

Drains-unique :
    {p : RequestParser} {buf : Bytes} {ds : List Bytes} {c d : Drained}
    → Drains p buf ds c
    → Drains p buf ds d
    → c ≡ d
Drains-unique (fails {q = q} e f) (fails {q = q'} g h) = let same : q ≡ q' = cc in rw same refl
Drains-unique (fails {q = q} e f) (breaks {q = q'} g h i) = let same : q ≡ q' = cc in absurd (cc)
Drains-unique (fails {q = q} e f) (takes {q = q'} g h i) = let same : q ≡ q' = cc in absurd (cc)
Drains-unique (breaks {q = q} e f f') (fails {q = q'} g h) = let same : q ≡ q' = cc in absurd (cc)
Drains-unique (breaks {q = q} {n = n} e f f') (breaks {q = q'} {n = n'} g h i) =
    let same : q ≡ q' = cc in let used : n ≡ n' = cc in rw (same, used) refl
Drains-unique (breaks {q = q} e f f') (takes {q = q'} g h i) = let same : q ≡ q' = cc in absurd (cc)
Drains-unique (takes {q = q} e f later) (fails {q = q'} g h) = let same : q ≡ q' = cc in absurd (cc)
Drains-unique (takes {q = q} e f later) (breaks {q = q'} g h i) =
    let same : q ≡ q' = cc in absurd (cc)
Drains-unique (takes {q = q} {n = n} e f later) (takes {q = q'} {n = n'} g h later') =
    let same : q ≡ q' = cc in let used : n ≡ n' = cc in Drains-unique later (rw (same, used) later')

result-returned : (d : Drained) → Between 0 d → (out : Outcome) × (result d ≡ returned out)
result-returned (over r) b = b
result-returned (waiting p buf ds) b = (_, refl)

-- `run` returns, without a trap.
run_returns :
    (input : Bytes) (step : ℕ)
    → 1 ≤ step
    → length input + 2 < 2 ^ 64
    → (out : Outcome) × (run input step ≡ some (returned out))
run_returns input step s l =
    let (d, ran, drains) = run-Drains input step s l in
    let (out, e) = result-returned d (Drains-Between [] (refl, refl) (fresh_fits input l) drains) in
    (out, ran ∙ ap some e)

-- The requests that `run` digests and its final status do not depend on the step in which the input
-- is given to the parser. It is assumed that the input's length and 2 fit in 64 bits.
pub run-step :
    (input : Bytes) (step other : ℕ)
    → 1 ≤ step
    → 1 ≤ other
    → length input + 2 < 2 ^ 64
    → run input step ≡ run input other
run-step input step other s t l =
    let (c, ran, drains) = run-Drains input step s l in
    let (d, ran', drains') = run-Drains input other t l in
    ran ∙ ap (λ e. some (result e)) (Drains-unique drains drains') ∙ sym ran'

equal_all_refl : (xs : List Bytes) → equal_all xs xs ≡ true
equal_all_refl [] = refl
equal_all_refl (x ∷ xs) = rw (equal_refl x) (equal_all_refl xs)

same_outcome_refl : (a : Outcome) → same_outcome a a ≡ true
same_outcome_refl a = rw (equal_all_refl a.requests, ==_refl a.final_status) refl

-- The fuzz target returns and never traps, whatever its data: `feed` uses no more bytes than there
-- are, no body is above its limit, and the outcomes of the three runs are equal. It is assumed that
-- the length of the data and 1 fit in 64 bits.
pub test_one_input-passes :
    (data_in : Bytes) → length data_in + 1 < 2 ^ 64 → test_one_input data_in ≡ some passes
unfolding test_one_input
test_one_input-passes [] l = refl
test_one_input-passes (x ∷ input) l =
    let once = if is_empty input then 1 else length input in
    let fits : length input + 2 < 2 ^ 64 = omega (arith, l) in
    let (out, whole) = run_returns input once (once_positive input) fits in
    let bytewise = run-step input 1 once (le_refl _) (once_positive input) fits ∙ whole in
    let chunked =
      run-step input (x % 17 + 1) once (omega arith) (once_positive input) fits ∙ whole in
    rw (whole, bytewise, chunked, test_one_input, same_outcome_refl out) refl
  where
    once_positive : (input : Bytes) → 1 ≤ (if is_empty input then 1 else length input)
    once_positive [] = le_refl _
    once_positive (y ∷ ys) = omega arith
