-- ===== src/Server/Producing/Filling.antt =====
-- The refill ends: it fills `out` up to the low water, or the producer is done.
use http.Base.{
  ℕ, zero, suc, ◌+◌, ◌-◌, ◌≤◌, ◌<◌, ◌≡◌, refl, subst, ◌⊎◌, inl, inr, Bool, true, false, ◌&&◌, [],
  ◌∷◌, ◌++◌, none, some, Bytes, codes, ltb, ltb→le, if_each, length, length-append, arith,
  Bool-cases,
}
use http.Ascii.{is_empty}
use http.Headers.{Headers}
use http.Response.{append_number, append_chunk, to_chars_loop}
use http.Server.{Connection, Pulled, pulled, pull_thrown, producer_low_water}
use http.Server.Producing.{
  Round, take_piece, on_pulled, pull_round, and_then, refill_loop, end_body, finish_refill,
  refill_from_producer,
}

append_number_longer : (out : Bytes) (n base : ℕ) → length out ≤ length (append_number out n base)
unfolding append_number
append_number_longer out n base = omega (arith, length-append out (to_chars_loop 64 base n []))

append_chunk_longer :
    (out piece : Bytes) → is_empty piece ≡ false → length out < length (append_chunk out piece)
unfolding append_chunk
append_chunk_longer out [] h = absurd (cc)
append_chunk_longer out (c ∷ piece) h =
    let digits = append_number out (length (c ∷ piece)) 16 in
    let line = digits ++ codes "\r\n" in
    omega (
      arith,
      append_number_longer out (length (c ∷ piece)) 16,
      length-append digits (codes "\r\n"),
      length-append line (c ∷ piece),
      length-append (line ++ (c ∷ piece)) (codes "\r\n"),
    )

append_longer : (out piece : Bytes) → is_empty piece ≡ false → length out < length (out ++ piece)
append_longer out [] h = absurd (cc)
append_longer out (c ∷ piece) h = omega (arith, length-append out (c ∷ piece))

module _ {ℓ} {P : Type ℓ} where
  -- A round that is not the last has added to `out`.
  abbrev pub GrowsRound : ℕ → Round P → Type 0
  GrowsRound n none = Unit
  GrowsRound n (some r) = r.1 ≡ true → n < length r.0.out

  take_piece-Grows :
      (c : Connection P) (piece : Bytes) (more : Bool)
      → (more ≡ true → is_empty piece ≡ false)
      → GrowsRound (length c.out) (take_piece c piece more)
  unfolding take_piece
  take_piece-Grows c piece more h =
      if_each (GrowsRound (length c.out)) c.stream_sized
        (λ e.
          if_each (GrowsRound (length c.out)) (ltb c.stream_left (length piece)) (λ k. tt)
            (λ k m. append_longer c.out piece (h (ground arith))))
        λ e.
          if_each (GrowsRound (length c.out)) c.chunked
            (λ k m. append_chunk_longer c.out piece (h m)) (λ k m. append_longer c.out piece (h m))

  on_pulled-Grows : (c : Connection P) (x : Pulled P) → GrowsRound (length c.out) (on_pulled c x)
  unfolding on_pulled
  on_pulled-Grows c pull_thrown = tt
  on_pulled-Grows c (pulled piece trailers more p) =
      if_each (GrowsRound (length c.out)) (more && is_empty piece) (λ e. tt)
        (λ e.
          take_piece-Grows (record c { producer = some p; trailers = trailers }) piece more
            (λ m. ground arith))

  pull_round-Grows :
      (pull : P → Headers → Pulled P) (c : Connection P)
      → GrowsRound (length c.out) (pull_round pull c)
  unfolding pull_round
  pull_round-Grows pull c =
      elim c.producer
        as (λ o.
          GrowsRound (length c.out)
            (elim o [ none ↦ none | some p ↦ on_pulled c (pull p c.trailers) ])) [
              | none ↦ tt
              | some p ↦ on_pulled-Grows c (pull p c.trailers)
            ]

  -- The loop leaves with more to come only when `out` is full.
  abbrev pub FullRound : Round P → Type 0
  FullRound none = Unit
  FullRound (some r) = r.1 ≡ true → producer_low_water ≤ length r.0.out

  and_then-Full :
      (n : ℕ) (r : Round P) (k : Connection P → Round P)
      → GrowsRound n r
      → ((d : Connection P) → n < length d.out → FullRound (k d))
      → FullRound (and_then r k)
  and_then-Full n none k g h = tt
  and_then-Full n (some (d, false)) k g h = λ e. absurd (cc)
  and_then-Full n (some (d, true)) k g h = h d (g refl)

  refill_loop-Full :
      (pull : P → Headers → Pulled P) (fuel : ℕ) (c : Connection P)
      → producer_low_water ≤ length c.out + fuel
      → FullRound (refill_loop pull fuel c)
  unfolding refill_loop
  refill_loop-Full pull zero c h = λ e. omega arith
  refill_loop-Full pull (suc fuel) c h = elim (Bool-cases (ltb (length c.out) producer_low_water)) [
    | inr e ↦ rw (e, refill_loop) (λ k. ltb→le (length c.out) producer_low_water e)
    | inl e ↦
        rw (e, refill_loop)
          (and_then-Full (length c.out) (pull_round pull c) (refill_loop pull fuel)
            (pull_round-Grows pull c) λ d g. refill_loop-Full pull fuel d (omega arith))
  ]

  end_body-producer : (c : Connection P) → (end_body c).producer ≡ none
  unfolding end_body
  end_body-producer c = refl

  finish_refill_cases :
      (r : Round P) (d : Connection P)
      → FullRound r
      → finish_refill r ≡ some d
      → (producer_low_water ≤ length d.out) ⊎ (d.producer ≡ none)
  finish_refill_cases none d h e = absurd (cc)
  finish_refill_cases (some (x, true)) d h e =
      let z : x ≡ d = cc in
      inl (subst (λ (y : Connection P). producer_low_water ≤ length y.out) z (h refl))
  finish_refill_cases (some (x, false)) d h e =
      let z : end_body x ≡ d = cc in
      inr (subst (λ (y : Connection P). y.producer ≡ none) z (end_body-producer x))

  -- After a refill either 64 KiB of output are there, or the producer is done.
  pub refill_from_producer_cases :
      (pull : P → Headers → Pulled P) (c d : Connection P)
      → refill_from_producer pull c ≡ some d
      → (producer_low_water ≤ length d.out) ⊎ (d.producer ≡ none)
  unfolding refill_from_producer
  refill_from_producer_cases pull c d e =
      finish_refill_cases (refill_loop pull (producer_low_water - length c.out) c) d
        (refill_loop-Full pull (producer_low_water - length c.out) c (omega arith)) e
