-- ===== src/Server/Producing/Declared.antt =====
-- A body of a declared length never outruns it.
use http.Base.{
  ℕ, zero, suc, ◌+◌, ◌-◌, ◌≡◌, ◌≢◌, refl, subst, ◌⊎◌, inl, inr, Bool, true, false, ◌&&◌, none, some,
  Bytes, ltb, ltb→le, ◌==◌, if_both, if_each, length, length-append, arith, Bool-cases,
}
use http.Ascii.{is_empty}
use http.Headers.{Headers}
use http.Server.{Connection, Pulled, pulled, pull_thrown, producer_low_water}
use http.Server.Producing.{
  Round, take_piece, on_pulled, pull_round, and_then, refill_loop, end_body, finish_refill,
  refill_from_producer,
}

module _ {ℓ} {P : Type ℓ} where
  -- The body has a declared length, and is sent as it is.
  pub record IsSized (c : Connection P) : Type 0 where
    pub sized : c.stream_sized ≡ true
    pub plain : c.chunked ≡ false

  -- What has gone to `out` has gone from the length that is left.
  abbrev pub budget : Connection P → ℕ
  budget c = length c.out + c.stream_left

  record Paid (n : ℕ) (r : Connection P × Bool) : Type ℓ where
    pub fits : IsSized r.0
    pub total : budget r.0 ≡ n
    pub active : r.1 ≡ true → r.0.producer ≢ none

  abbrev PaidRound : ℕ → Round P → Type ℓ
  PaidRound n none = Unit {ℓ}
  PaidRound n (some r) = Paid n r

  take_piece-Paid :
      (c : Connection P) (piece : Bytes) (more : Bool)
      → IsSized c
      → c.producer ≢ none
      → PaidRound (budget c) (take_piece c piece more)
  unfolding take_piece
  take_piece-Paid c piece more s a =
      if_each (PaidRound (budget c)) c.stream_sized
        (λ e.
          if_each (PaidRound (budget c)) (ltb c.stream_left (length piece)) (λ k. tt)
            (λ k. record {
              fits = record { sized = s.sized; plain = s.plain };
              total =
                  omega (arith, length-append c.out piece, ltb→le c.stream_left (length piece) k);
              active = λ m. a;
            }))
        (λ e. absurd (let d = s.sized in cc))

  on_pulled-Paid :
      (c : Connection P) (x : Pulled P) → IsSized c → PaidRound (budget c) (on_pulled c x)
  unfolding on_pulled
  on_pulled-Paid c pull_thrown s = tt
  on_pulled-Paid c (pulled piece trailers more p) s =
      if_both (PaidRound (budget c)) (more && is_empty piece) tt (
        take_piece-Paid (record c { producer = some p; trailers = trailers }) piece more
          (record { sized = s.sized; plain = s.plain }) (λ n. cc))

  pull_round-Paid :
      (pull : P → Headers → Pulled P) (c : Connection P)
      → IsSized c
      → PaidRound (budget c) (pull_round pull c)
  unfolding pull_round
  pull_round-Paid pull c s =
      elim c.producer
        as (λ o.
          PaidRound (budget c)
            (elim o [ none ↦ none | some p ↦ on_pulled c (pull p c.trailers) ])) [
              | none ↦ tt
              | some p ↦ on_pulled-Paid c (pull p c.trailers) s
            ]

  and_then-Paid :
      (n : ℕ) (r : Round P) (k : Connection P → Round P)
      → PaidRound n r
      → ((d : Connection P) → IsSized d → budget d ≡ n → d.producer ≢ none → PaidRound n (k d))
      → PaidRound n (and_then r k)
  and_then-Paid n none k g h = tt
  and_then-Paid n (some (d, false)) k g h = g
  and_then-Paid n (some (d, true)) k g h = h d g.fits g.total (g.active refl)

  refill_loop-Paid :
      (pull : P → Headers → Pulled P) (fuel n : ℕ) (c : Connection P)
      → IsSized c
      → budget c ≡ n
      → c.producer ≢ none
      → PaidRound n (refill_loop pull fuel c)
  unfolding refill_loop
  refill_loop-Paid pull zero n c s b a = record { fits = s; total = b; active = λ e. a }
  refill_loop-Paid pull (suc fuel) n c s b a =
      elim (ltb (length c.out) producer_low_water)
        as (λ x. PaidRound n (elim x [
          | false ↦ some (c, true)
          | true ↦ and_then (pull_round pull c) (refill_loop pull fuel)
        ])) [
          | false ↦ record { fits = s; total = b; active = λ e. a }
          | true ↦
              and_then-Paid n (pull_round pull c) (refill_loop pull fuel)
                (subst (λ k. PaidRound k (pull_round pull c)) b (pull_round-Paid pull c s))
                (refill_loop-Paid pull fuel n)
        ]

  -- What a refill of a body of a declared length leaves.
  pub record KeepsLength (c d : Connection P) : Type ℓ where
    pub fits : IsSized d
    pub total : budget d ≡ budget c
    pub short : d.producer ≡ none → (d.stream_left ≡ 0) ⊎ (d.close_after_write ≡ true)

  end_body-KeepsLength :
      (c x : Connection P) (m : Bool) → Paid (budget c) (x, m) → KeepsLength c (end_body x)
  unfolding end_body
  end_body-KeepsLength c x m h = record {
    fits = record { sized = h.fits.sized; plain = h.fits.plain };
    total = let plain = h.fits.plain in rw plain h.total;
    short = λ n. elim (Bool-cases (x.stream_left == 0)) [
      | inl e ↦ inl (ground arith)
      | inr e ↦ inr (let sized = h.fits.sized in rw (sized, e) refl)
    ];
  }

  finish_refill-KeepsLength :
      (c d : Connection P) (r : Round P)
      → PaidRound (budget c) r
      → finish_refill r ≡ some d
      → KeepsLength c d
  finish_refill-KeepsLength c d none h e = absurd (cc)
  finish_refill-KeepsLength c d (some (x, true)) h e =
      let z : x ≡ d = cc in
      subst (KeepsLength c) z
        (record { fits = h.fits; total = h.total; short = λ n. absurd (h.active refl n) })
  finish_refill-KeepsLength c d (some (x, false)) h e =
      let z : end_body x ≡ d = cc in subst (KeepsLength c) z (end_body-KeepsLength c x false h)

-- While a body of a declared length is streamed, each refill that does not fail moves from the length
-- that is left exactly as many bytes as it adds to the output, whatever the producer gives. When the
-- producer is gone, the whole length has been given, or the connection is closed after the output.
pub refill_from_producer-KeepsLength {ℓ} :
    {P : Type ℓ} (pull : P → Headers → Pulled P) (c d : Connection P)
    → IsSized c
    → c.producer ≢ none
    → refill_from_producer pull c ≡ some d
    → KeepsLength c d
unfolding refill_from_producer
refill_from_producer-KeepsLength pull c d s a e =
    finish_refill-KeepsLength c d (refill_loop pull (producer_low_water - length c.out) c)
      (refill_loop-Paid pull (producer_low_water - length c.out) (budget c) c s refl a) e
