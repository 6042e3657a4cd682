-- ===== src/Server/Producing/Contract.antt =====
-- What a body producer that keeps its contract gives, and what a refill makes of it: the contract that
-- `BodyProducer` of src/http/response.hpp is documented with, for the bodies of a declared length.
use http.Base.{
  ℕ, zero, suc, ◌+◌, ◌-◌, ◌≡◌, refl, ◌∙◌, ap, sym, ◌⊎◌, inl, inr, Bool, true, false, not, ◌&&◌, [],
  ◌∷◌, ◌++◌, none, some, Bytes, ltb, le→ltb, ◌==◌, length, length-append, arith, Bool-cases,
  append_assoc, append-nil, ==_iff,
}
use http.Ascii.{is_empty}
use http.Headers.{Headers}
use http.Server.{Connection, Pulled, pulled, producer_low_water}
use http.Server.Producing.{
  take_piece, on_pulled, pull_round, refill_loop, end_body, refill_from_producer,
}
use http.Server.Producing.Declared.{IsSized}

module _ {ℓ} {P : Type ℓ} (call : P → Headers → Pulled P) where
  -- All that a producer gives, from a state and trailers on: the body and the final trailers. It is
  -- done after finitely many calls, and each call after which it has more has given a byte.
  pub data Produces : P → Headers → Bytes → Headers → Type ℓ where
    ends :
        {p q : P} {t t' : Headers} {piece : Bytes}
        → call p t ≡ pulled piece t' false q
        → Produces p t piece t'
    goes :
        {p q : P} {t t' t'' : Headers} {piece rest : Bytes}
        → call p t ≡ pulled piece t' true q
        → is_empty piece ≡ false
        → Produces q t' rest t''
        → Produces p t (piece ++ rest) t''

  -- The connection is to send that body, which has the length that is left.
  pub record Sending (c : Connection P) (body : Bytes) (final : Headers) : Type ℓ where
    pub sized : IsSized c
    pub left : c.stream_left ≡ length body
    pub source : P
    pub active : c.producer ≡ some source
    pub body_follows : Produces source c.trailers body final

  -- A part of the body has gone to `out`, and the rest is still to be sent.
  pub record Ahead (c d : Connection P) (body : Bytes) (final : Headers) : Type ℓ where
    pub taken : Bytes
    pub rest : Bytes
    pub split : body ≡ taken ++ rest
    pub appended : d.out ≡ c.out ++ taken
    pub follows : Sending d rest final

  -- All of the body has gone to `out`.
  pub record Sent (c d : Connection P) (body : Bytes) : Type ℓ where
    pub sized : IsSized d
    pub appended : d.out ≡ c.out ++ body
    pub left : d.stream_left ≡ 0
    pub closing : d.close_after_write ≡ c.close_after_write

  abbrev Left : Connection P → Bytes → Headers → Connection P × Bool → Type ℓ
  Left c body final (d, true) = Ahead c d body final
  Left c body final (d, false) = Sent c d body

  abbrev Looped : ℕ → Connection P → Bytes → Headers → Type ℓ
  Looped fuel c body final =
      (r : Connection P × Bool) × (refill_loop call fuel c ≡ some r) × Left c body final r

  -- A piece that is not the last of the body.
  behind_piece :
      (c c' : Connection P) (piece rest : Bytes) (final : Headers) (r : Connection P × Bool)
      → c'.out ≡ c.out ++ piece
      → c'.close_after_write ≡ c.close_after_write
      → Left c' rest final r
      → Left c (piece ++ rest) final r
  behind_piece c c' piece rest final (d, true) o k l = record {
    taken = piece ++ l.taken;
    rest = l.rest;
    split = ap (λ s. piece ++ s) l.split ∙ sym (append_assoc piece l.taken l.rest);
    appended = l.appended ∙ rw o (append_assoc c.out piece l.taken);
    follows = l.follows;
  }
  behind_piece c c' piece rest final (d, false) o k l = record {
    sized = l.sized;
    appended = l.appended ∙ rw o (append_assoc c.out piece rest);
    left = l.left;
    closing = l.closing ∙ k;
  }

  -- Nothing has been taken yet.
  stays :
      (c : Connection P) (body : Bytes) (final : Headers)
      → Sending c body final
      → Left c body final (c, true)
  stays c body final s = record {
    taken = [];
    rest = body;
    split = refl;
    appended = sym (append-nil c.out);
    follows = s;
  }

  -- The connection after a piece.
  abbrev pieced : Connection P → P → Headers → Bytes → ℕ → Connection P
  pieced c q t piece left = record c {
    producer = some q;
    trailers = t;
    out = c.out ++ piece;
    stream_left = left;
  }

  -- A round of the loop.
  pull_round-sized :
      (c : Connection P) (p q : P) (t' : Headers) (piece : Bytes) (more : Bool) (k : ℕ)
      → IsSized c
      → c.producer ≡ some p
      → call p c.trailers ≡ pulled piece t' more q
      → more && is_empty piece ≡ false
      → c.stream_left ≡ length piece + k
      → pull_round call c ≡ some (pieced c q t' piece k, more && not (k == 0))
  unfolding pull_round on_pulled take_piece
  pull_round-sized c p q t' piece more k s a e f l =
      let fits = le→ltb (length piece + k) (length piece) (omega arith) in
      let less : length piece + k - length piece ≡ k = omega arith in
      rw (a, pull_round, e, on_pulled, f, s.sized, l, fits, less) refl

  -- A round, and the rounds after it.
  sized_turn :
      (fuel : ℕ) (c : Connection P) (p : P) (body : Bytes) (final : Headers)
      → IsSized c
      → c.producer ≡ some p
      → c.stream_left ≡ length body
      → ltb (length c.out) producer_low_water ≡ true
      → ((d : Connection P) (rest : Bytes) → Sending d rest final → Looped fuel d rest final)
      → Produces p c.trailers body final
      → Looped (suc fuel) c body final
  unfolding refill_loop
  sized_turn fuel c p body final s a l e later (ends {q = q} h) = (
    (pieced c q final body 0, false),
    rw (e, refill_loop, pull_round-sized c p q final body false 0 s a h refl (omega (arith, l)))
        refl,
    record {
      sized = record { sized = s.sized; plain = s.plain };
      appended = refl;
      left = refl;
      closing = refl;
    },
  )
  sized_turn fuel c p body final s a l e later
        (goes {q = q} {t' = t'} {piece = piece} {rest = rest} h g follows) =
      let ran =
        pull_round-sized c p q t' piece true (length rest) s a h g
          (omega (arith, l, length-append piece rest)) in
      let kept : IsSized (pieced c q t' piece (length rest)) = record {
        sized = s.sized;
        plain = s.plain;
      } in
      elim (Bool-cases (length rest == 0)) [
        | inl z ↦ (
          (pieced c q t' piece (length rest), false),
          rw (e, refill_loop, ran, z) refl,
          record {
            sized = kept;
            appended =
                ap (λ s. c.out ++ s)
                  (sym (append-nil piece) ∙ ap (λ s. piece ++ s) (sym (no_rest rest z)));
            left = (==_iff (length rest) 0).0 z;
            closing = refl;
          },
        )
        | inr z ↦
            let (r, run, left) = later (pieced c q t' piece (length rest)) rest (record {
              sized = kept;
              left = refl;
              source = q;
              active = refl;
              body_follows = follows;
            }) in
            (
              r,
              rw (e, refill_loop, ran, z) run,
              behind_piece c (pieced c q t' piece (length rest)) piece rest final r refl refl left,
            )
      ]
    where
      no_rest : (xs : Bytes) → (length xs == 0) ≡ true → xs ≡ []
      no_rest [] z = refl
      no_rest (x ∷ xs) z = absurd (omega (arith, (==_iff (length (x ∷ xs)) 0).0 z))

  sized_loop :
      (fuel : ℕ) (c : Connection P) (body : Bytes) (final : Headers)
      → Sending c body final
      → Looped fuel c body final
  unfolding refill_loop
  sized_loop zero c body final s = ((c, true), refl, stays c body final s)
  sized_loop (suc fuel) c body final s = elim (Bool-cases (ltb (length c.out) producer_low_water)) [
    | inr e ↦ ((c, true), rw (e, refill_loop) refl, stays c body final s)
    | inl e ↦
        sized_turn fuel c s.source body final s.sized s.active s.left e
          (λ d rest t. sized_loop fuel d rest final t) s.body_follows
  ]

  -- While a producer that keeps its contract gives a body of the declared length, a refill does not
  -- fail. It appends to the output what comes next of the body: either a part of it, and then the
  -- producer is still there, with the rest of the body to give and its length left, or all of it, and
  -- then the producer is gone, no length is left and the connection is closed after the output only if
  -- that was so before.
  pub refill_from_producer-Sending :
      (c : Connection P) (body : Bytes) (final : Headers)
      → Sending c body final
      → (d : Connection P) × (refill_from_producer call c ≡ some d)
        × (Ahead c d body final ⊎ (Sent c d body × (d.producer ≡ none)))
  unfolding refill_from_producer end_body
  refill_from_producer-Sending c body final s =
      finished (sized_loop (producer_low_water - length c.out) c body final s)
    where
      finished :
          Looped (producer_low_water - length c.out) c body final
          → (d : Connection P) × (refill_from_producer call c ≡ some d)
            × (Ahead c d body final ⊎ (Sent c d body × (d.producer ≡ none)))
      finished ((d, true), run, l) = (d, rw (refill_from_producer, run) refl, inl l)
      finished ((d, false), run, l) = (
        end_body d,
        rw (refill_from_producer, run) refl,
        inr (
          record {
            sized = record { sized = l.sized.sized; plain = l.sized.plain };
            appended = rw (l.sized.plain) l.appended;
            left = l.left;
            closing = rw (l.sized.sized, l.left) l.closing;
          },
          refl,
        ),
      )
