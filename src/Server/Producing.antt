-- ===== src/Server/Producing.antt =====
-- `Server::Worker::refill_from_producer`.
pub mod Appending
pub mod Filling
pub mod Declared
pub mod Contract
use http.Base.{
  ℕ, zero, suc, ◌+◌, ◌-◌, Bool, true, false, not, ◌&&◌, [], ◌∷◌, ◌++◌, Option, none, some, Bytes,
  ltb, ◌==◌, if◌then◌else◌, length,
}
use http.Ascii.{is_empty}
use http.Headers.{Headers}
use http.Response.{append_chunk, append_last_chunk}
use http.Server.{Connection, Env, Pulled, pulled, pull_thrown, producer_low_water}

-- What a round of the loop leaves: the connection and `more`, or `none` where the function returns false.
abbrev pub Round {ℓ} : Type ℓ → Type ℓ
Round P = Option (Connection P × Bool)

module _ {ℓ} {P : Type ℓ} where
  -- A piece goes to `out`, by the kind of the body.
  unfoldable pub take_piece : Connection P → Bytes → Bool → Round P
  take_piece c piece more =
      if c.stream_sized
      then (if ltb c.stream_left (length piece)
          then none
          else some (
            record c { stream_left = c.stream_left - length piece; out = c.out ++ piece },
            more && not (c.stream_left - length piece == 0),
          ))
      else if c.chunked
      then some (record c { out = append_chunk c.out piece }, more)
      else some (record c { out = c.out ++ piece }, more)

  -- What becomes of a call of the producer. One that has more and gives no byte breaks its contract.
  unfoldable pub on_pulled : Connection P → Pulled P → Round P
  on_pulled c pull_thrown = none
  on_pulled c (pulled piece trailers more p) =
      if more && is_empty piece
      then none
      else take_piece (record c { producer = some p; trailers = trailers }) piece more

  -- A round of the loop; there is a producer whenever it runs.
  unfoldable pub pull_round : (P → Headers → Pulled P) → Connection P → Round P
  pull_round pull c = elim c.producer [ none ↦ none | some p ↦ on_pulled c (pull p c.trailers) ]

  -- The loop goes on while there is more.
  abbrev pub and_then : Round P → (Connection P → Round P) → Round P
  and_then none following = none
  and_then (some (d, true)) following = following d
  and_then (some (d, false)) following = some (d, false)

  -- The loop, on fuel, while there is more. Each round but the last adds a byte to `out`.
  unfoldable pub refill_loop : (P → Headers → Pulled P) → ℕ → Connection P → Round P
  refill_loop pull zero c = some (c, true)
  refill_loop pull (suc fuel) c = elim (ltb (length c.out) producer_low_water) [
    | false ↦ some (c, true)
    | true ↦ and_then (pull_round pull c) (refill_loop pull fuel)
  ]

  -- What is done once the producer has no more.
  unfoldable pub end_body : Connection P → Connection P
  end_body c = record c {
    producer = none;
    out = if c.chunked then append_last_chunk c.out c.trailers else c.out;
    close_after_write =
        if c.stream_sized && not (c.stream_left == 0) then true else c.close_after_write;
    trailers = [];
  }

  abbrev pub finish_refill : Round P → Option (Connection P)
  finish_refill none = none
  finish_refill (some (d, true)) = some d
  finish_refill (some (d, false)) = some (end_body d)

  -- `none` where the source returns false. As many rounds as `out` lacks bytes are enough.
  unfoldable pub refill_from_producer :
      (P → Headers → Pulled P) → Connection P → Option (Connection P)
  refill_from_producer pull c =
      finish_refill (refill_loop pull (producer_low_water - length c.out) c)
