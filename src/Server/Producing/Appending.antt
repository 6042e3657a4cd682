-- ===== src/Server/Producing/Appending.antt =====
-- What `refill_from_producer` changes: it appends to `out`, and leaves the socket and the file alone.
use http.Base.{
  ℕ, zero, suc, ◌-◌, ◌≡◌, refl, ◌∙◌, ap, sym, subst, inl, inr, Bool, true, false, ◌&&◌, not, ◌==◌,
  [], ◌∷◌, ◌++◌, Option, none, some, Bytes, codes, ltb, if_both, length, append_assoc, append-nil,
  Bool-cases,
}
use http.Ascii.{is_empty}
use http.ByteBuffer.{ByteBuffer}
use http.Parser.{RequestParser}
use http.Headers.{Headers}
use http.Response.{append_number, append_field, append_chunk, append_trailers, append_last_chunk}
use http.Server.{Connection, Pulled, pulled, pull_thrown, producer_low_water}
use http.Server.Producing.{
  Round, take_piece, on_pulled, pull_round, and_then, refill_loop, end_body, finish_refill,
  refill_from_producer,
}

-- The input, and what `process` keeps of it.
abbrev pub beside {ℓ} : {P : Type ℓ} → Connection P → ByteBuffer × RequestParser × Bool
beside c = (c.input, c.parser, c.continue_sent)

-- The second is the first with more output.
pub record Extends {ℓ} {P : Type ℓ} (c d : Connection P) : Type ℓ where
  pub more : Bytes
  pub out_more : d.out ≡ c.out ++ more
  pub same_off : d.out_off ≡ c.out_off
  pub same_socket : d.socket ≡ c.socket
  pub same_file : d.file ≡ c.file
  pub same_beside : beside d ≡ beside c
  pub closing : c.close_after_write ≡ true → d.close_after_write ≡ true

Extends-refl {ℓ} : {P : Type ℓ} (c : Connection P) → Extends c c
Extends-refl c = record {
  more = [];
  out_more = sym (append-nil c.out);
  same_off = refl;
  same_socket = refl;
  same_file = refl;
  same_beside = refl;
  closing = λ h. h;
}

Extends-trans {ℓ} : {P : Type ℓ} {c d e : Connection P} → Extends c d → Extends d e → Extends c e
Extends-trans {c = c} x y = record {
  more = x.more ++ y.more;
  out_more = y.out_more ∙ ap (λ o. o ++ y.more) x.out_more ∙ append_assoc c.out x.more y.more;
  same_off = y.same_off ∙ x.same_off;
  same_socket = y.same_socket ∙ x.same_socket;
  same_file = y.same_file ∙ x.same_file;
  same_beside = y.same_beside ∙ x.same_beside;
  closing = λ h. y.closing (x.closing h);
}

append_chunk_more : (out piece : Bytes) → (more : Bytes) × (append_chunk out piece ≡ out ++ more)
unfolding append_chunk append_number
append_chunk_more out [] = ([], sym (append-nil out))
append_chunk_more out (c ∷ piece) = (append_chunk [] (c ∷ piece), simp append_assoc)

append_trailers_more :
    (out : Bytes) (fs : Headers) → (more : Bytes) × (append_trailers out fs ≡ out ++ more)
unfolding append_trailers
append_trailers_more out [] = ([], sym (append-nil out))
append_trailers_more out (f ∷ fs) =
    let (more, e) = append_trailers_more (append_field out f.0 f.1) fs in
    (append_field [] f.0 f.1 ++ more, e ∙ simp append_assoc)

append_last_chunk_more :
    (out : Bytes) (fs : Headers) → (more : Bytes) × (append_last_chunk out fs ≡ out ++ more)
unfolding append_last_chunk
append_last_chunk_more out fs =
    let (more, e) = append_trailers_more (out ++ codes "0\r\n") fs in
    (codes "0\r\n" ++ (more ++ codes "\r\n"), ap (λ x. x ++ codes "\r\n") e ∙ simp append_assoc)

module _ {ℓ} {P : Type ℓ} where
  abbrev pub ExtendsRound : Connection P → Round P → Type ℓ
  ExtendsRound c none = Unit
  ExtendsRound c (some r) = Extends c r.0

  take_piece-Extends :
      (c : Connection P) (piece : Bytes) (more : Bool) → ExtendsRound c (take_piece c piece more)
  unfolding take_piece
  take_piece-Extends c piece more =
      let plain : Extends c (record c { out = c.out ++ piece }) = record {
        more = piece;
        out_more = refl;
        same_off = refl;
        same_socket = refl;
        same_file = refl;
        same_beside = refl;
        closing = λ h. h;
      } in
      let (sent, e) = append_chunk_more c.out piece in
      if_both (ExtendsRound c) c.stream_sized
        (if_both (ExtendsRound c) (ltb c.stream_left (length piece)) tt (record {
          more = piece;
          out_more = refl;
          same_off = refl;
          same_socket = refl;
          same_file = refl;
          same_beside = refl;
          closing = λ h. h;
        }))
        (if_both (ExtendsRound c) c.chunked
          (record {
            more = sent;
            out_more = e;
            same_off = refl;
            same_socket = refl;
            same_file = refl;
            same_beside = refl;
            closing = λ h. h;
          })
          plain)

  -- The producer and the trailers are no part of the output.
  Extends-from :
      (c : Connection P) (p : Option P) (trailers : Headers) (r : Round P)
      → ExtendsRound (record c { producer = p; trailers = trailers }) r
      → ExtendsRound c r
  Extends-from c p trailers none h = tt
  Extends-from c p trailers (some r) h = record {
    more = h.more;
    out_more = h.out_more;
    same_off = h.same_off;
    same_socket = h.same_socket;
    same_file = h.same_file;
    same_beside = h.same_beside;
    closing = h.closing;
  }

  on_pulled-Extends : (c : Connection P) (x : Pulled P) → ExtendsRound c (on_pulled c x)
  unfolding on_pulled
  on_pulled-Extends c pull_thrown = tt
  on_pulled-Extends c (pulled piece trailers more p) =
      if_both (ExtendsRound c) (more && is_empty piece) tt (
        Extends-from c (some p) trailers _
          (take_piece-Extends (record c { producer = some p; trailers = trailers }) piece more))

  pull_round-Extends :
      (pull : P → Headers → Pulled P) (c : Connection P) → ExtendsRound c (pull_round pull c)
  unfolding pull_round
  pull_round-Extends pull c =
      elim c.producer
        as (λ o.
          ExtendsRound c (elim o [ none ↦ none | some p ↦ on_pulled c (pull p c.trailers) ])) [
            | none ↦ tt
            | some p ↦ on_pulled-Extends c (pull p c.trailers)
          ]

  and_then-Extends :
      (c : Connection P) (x : Round P) (k : Connection P → Round P)
      → ExtendsRound c x
      → ((d : Connection P) → ExtendsRound d (k d))
      → ExtendsRound c (and_then x k)
  and_then-Extends c none k h ih = tt
  and_then-Extends c (some (d, false)) k h ih = h
  and_then-Extends c (some (d, true)) k h ih = of_last (k d) (ih d)
    where
      of_last : (r : Round P) → ExtendsRound d r → ExtendsRound c r
      of_last none g = tt
      of_last (some r) g = Extends-trans h g

  refill_loop-Extends :
      (pull : P → Headers → Pulled P) (fuel : ℕ) (c : Connection P)
      → ExtendsRound c (refill_loop pull fuel c)
  unfolding refill_loop
  refill_loop-Extends pull zero c = Extends-refl c
  refill_loop-Extends pull (suc fuel) c =
      elim (Bool-cases (ltb (length c.out) producer_low_water)) [
        | inr e ↦ rw (e, refill_loop) (Extends-refl c)
        | inl e ↦
            rw (e, refill_loop)
              (and_then-Extends c (pull_round pull c) (refill_loop pull fuel)
                (pull_round-Extends pull c) (refill_loop-Extends pull fuel))
      ]

  end_body-Extends : (c : Connection P) → Extends c (end_body c)
  unfolding end_body
  end_body-Extends c =
      let (sent, e) = append_last_chunk_more c.out c.trailers in
      let close : c.close_after_write ≡ true → (end_body c).close_after_write ≡ true =
        λ h. if_both (λ b. b ≡ true) (c.stream_sized && not (c.stream_left == 0)) refl h in
      elim (Bool-cases c.chunked) [
        | inl b ↦ record {
          more = sent;
          out_more = rw b e;
          same_off = refl;
          same_socket = refl;
          same_file = refl;
          same_beside = refl;
          closing = close;
        }
        | inr b ↦ record {
          more = [];
          out_more = rw b (sym (append-nil c.out));
          same_off = refl;
          same_socket = refl;
          same_file = refl;
          same_beside = refl;
          closing = close;
        }
      ]

  pub refill_from_producer-Extends :
      (pull : P → Headers → Pulled P) (c d : Connection P)
      → refill_from_producer pull c ≡ some d
      → Extends c d
  unfolding refill_from_producer
  refill_from_producer-Extends pull c d e =
      of_result (refill_loop pull (producer_low_water - length c.out) c)
        (refill_loop-Extends pull (producer_low_water - length c.out) c) e
    where
      of_result : (r : Round P) → ExtendsRound c r → finish_refill r ≡ some d → Extends c d
      of_result none h q = absurd (cc)
      of_result (some (x, true)) h q = let z : x ≡ d = cc in subst (Extends c) z h
      of_result (some (x, false)) h q =
          let z : end_body x ≡ d = cc in subst (Extends c) z (Extends-trans h (end_body-Extends x))
