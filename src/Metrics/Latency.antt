-- ===== src/Metrics/Latency.antt =====
-- The latency histogram: which bucket a sample falls into, and what the buckets add up to.
use http.Base.{
  ℕ, zero, suc, ◌+◌, ◌-◌, ◌/◌, ◌^◌, ◌≤◌, ◌<◌, ◌≡◌, ◌≢◌, refl, ◌∙◌, List, [], ◌∷◌, arith, inl, inr,
  leb, ltb, length, Bool-cases, ltb→lt, ltb→le,
}
use native.Mathlib.Nat.{pow-suc}
use http.Metrics.{
  WorkerMetrics, bump, bump_at, bit_width, latency_bucket, latency_bucket_count, observe_latency_us,
}

-- `w` is the number of binary digits of `n`.
record HasWidth (n w : ℕ) : Type 0 where
  below : n < 2 ^ w
  none : n ≡ 0 → w ≡ 0
  some : n ≢ 0 → w ≢ 0
  above : n ≢ 0 → 2 ^ (w - 1) ≤ n

HasWidth-zero : HasWidth 0 0
HasWidth-zero = record {
  below = omega arith;
  none = λ e. refl;
  some = λ n. absurd (n refl);
  above = λ n. absurd (n refl);
}

-- One digit more.
HasWidth-suc : (n w : ℕ) → n ≢ 0 → HasWidth (n / 2) w → HasWidth n (suc w)
HasWidth-suc n zero ne h = record {
  below = omega (arith, h.below);
  none = λ e. absurd (ne e);
  some = λ k e. omega arith;
  above = λ k. omega arith;
}
HasWidth-suc n (suc w) ne h =
    let half : n / 2 ≢ 0 = λ e. let z = h.none e in omega arith in
    record {
      below = omega (arith, h.below, pow-suc 2 (suc w));
      none = λ e. absurd (ne e);
      some = λ k e. omega arith;
      above = λ k.
          let drop : suc (suc w) - 1 ≡ suc w = omega arith in
          let same : suc w - 1 ≡ w = omega arith in
          rw drop (omega (arith, rw same at (h.above half), pow-suc 2 w));
    }

bit_width-HasWidth : (fuel us : ℕ) → us < 2 ^ fuel → HasWidth us (bit_width fuel us)
unfolding bit_width
bit_width-HasWidth zero zero h = HasWidth-zero
bit_width-HasWidth zero (suc n) h = absurd (omega arith)
bit_width-HasWidth (suc fuel) zero h = HasWidth-zero
bit_width-HasWidth (suc fuel) (suc n) h =
    HasWidth-suc (suc n) (bit_width fuel (suc n / 2)) (λ e. omega arith)
      (bit_width-HasWidth fuel (suc n / 2) (omega (arith, pow-suc 2 fuel)))

latency_bucket_last : (us : ℕ) → 24 ≤ bit_width 64 us → us ≢ 0 → latency_bucket us ≡ 23
unfolding latency_bucket
latency_bucket_last us h n = ground arith

latency_bucket_width :
    (us : ℕ)
    → bit_width 64 us < 24
    → (us ≡ 0 → bit_width 64 us ≡ 0)
    → latency_bucket us ≡ bit_width 64 us
unfolding latency_bucket
latency_bucket_width us h n = ground (arith, n)

pow_mono : (k n : ℕ) → k ≤ n → 2 ^ k ≤ 2 ^ n
pow_mono k zero h = let z : k ≡ 0 = omega arith in rw z (omega arith)
pow_mono k (suc n) h = elim (Bool-cases (leb k n)) [
  | inl l ↦ omega (arith, pow_mono k n (ground arith), pow-suc 2 n)
  | inr g ↦ let z : k ≡ suc n = ground arith in rw z (omega arith)
]

-- The bucket of a latency is one of the 24; the sample is below 2 to the bucket's number, but for the
-- last bucket, and at least 2 to the number before, but for the first.
pub latency_bucket_bounds :
    (us : ℕ)
    → us < 2 ^ 64
    → (latency_bucket us < latency_bucket_count)
      × (latency_bucket us ≢ 23 → us < 2 ^ latency_bucket us)
      × (latency_bucket us ≢ 0 → 2 ^ (latency_bucket us - 1) ≤ us)
latency_bucket_bounds us h =
    let w = bit_width-HasWidth 64 us h in
    elim (Bool-cases (ltb (bit_width 64 us) 24)) [
      | inl l ↦
          let e = latency_bucket_width us (ltb→lt (bit_width 64 us) 24 l) w.none in
          rw e (ltb→lt (bit_width 64 us) 24 l, λ n. w.below, λ n. w.above (λ z. n (w.none z)))
      | inr l ↦
          let g = ltb→le (bit_width 64 us) 24 l in
          let ne : us ≢ 0 = λ z. let k = w.none z in omega arith in
          let e = latency_bucket_last us g ne in
          let m = pow_mono 22 (bit_width 64 us - 1) (omega arith) in
          rw e (omega arith, λ n. absurd (n refl), λ n. omega (arith, m, w.above ne))
    ]

unfoldable pub sum : List ℕ → ℕ
sum [] = 0
sum (x ∷ xs) = x + sum xs

bump_at-sum :
    (cs : List ℕ) (i : ℕ)
    → i < length cs
    → sum cs + 1 < 2 ^ 64
    → (sum (bump_at cs i) ≡ sum cs + 1) × (length (bump_at cs i) ≡ length cs)
unfolding sum bump_at bump
bump_at-sum [] i h l = absurd (omega arith)
bump_at-sum (c ∷ cs) zero h l = (omega arith, refl)
bump_at-sum (c ∷ cs) (suc i) h l =
    let (a, b) = bump_at-sum cs i (omega arith) (omega arith) in (omega arith, omega arith)

-- `observe_latency_us` counts each sample once: the buckets stay 24 and hold one more sample, as
-- long as their sum fits in 64 bits.
pub observe_latency_us-sum :
    (m : WorkerMetrics) (us : ℕ)
    → us < 2 ^ 64
    → length m.latency_buckets ≡ latency_bucket_count
    → sum m.latency_buckets + 1 < 2 ^ 64
    → (sum (observe_latency_us m us).latency_buckets ≡ sum m.latency_buckets + 1)
      × (length (observe_latency_us m us).latency_buckets ≡ latency_bucket_count)
unfolding observe_latency_us
observe_latency_us-sum m us h l f =
    let (a, b) =
      bump_at-sum m.latency_buckets (latency_bucket us)
        (omega (arith, (latency_bucket_bounds us h).0)) f in
    (a, b ∙ l)
