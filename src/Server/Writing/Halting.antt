-- ===== src/Server/Writing/Halting.antt =====
-- `do_write` returns: each round that goes on makes a measure fall.
use http.Base.{
  ℕ, zero, suc, ◌≤◌, ◌<◌, ◌≡◌, refl, ◌∙◌, ap, ◌⊎◌, inl, inr, Bool, true, false, Option, none, some,
  ltb, ◌==◌, if_each, length, arith,
}
use http.Server.{Connection, Turn, Env, out_pending, is_some, producer_low_water}
use http.Server.Producing.{refill_from_producer}
use http.Server.Producing.Appending.{Extends, refill_from_producer-Extends}
use http.Server.Producing.Filling.{refill_from_producer_cases}
use http.Server.Writing.{
  WriteRound, fails, stops, goes_on, on_refilled, produce_round, body_round, write_round,
  after_round, write_loop, write_fuel, do_write,
}
use http.Server.Writing.Items.{HasOutput, Carries}
use http.Server.Writing.Sending.{CarriesRound}
use http.Server.Writing.Flow.{write_round-Carries, write_loop-Carries}
use http.Server.Writing.Measure.{
  answers, flag, flag_bound, flag_pending, measure, Falls, send_round-Falls, sendfile_round-Falls,
}

module _ {ℓ} {P : Type ℓ} where
  -- A refill ends with output pending, or it was the producer's last.
  refilled_falls :
      (c d : Connection P) (p : P)
      → c.producer ≡ some p
      → out_pending c ≡ 0
      → HasOutput c
      → Extends c d
      → (producer_low_water ≤ length d.out) ⊎ (d.producer ≡ none)
      → measure d < measure c
  refilled_falls c d p e z v x h =
      let same : answers d.socket ≡ answers c.socket = ap answers x.same_socket in
      let was : flag (is_some c.producer) ≡ 1 = ap (λ o. flag (is_some o)) e in
      let empty : flag (out_pending c == 0) ≡ 1 = ap (λ n. flag (n == 0)) z in
      of_cases same was empty h
    where
      of_cases :
          answers d.socket ≡ answers c.socket
          → flag (is_some c.producer) ≡ 1
          → flag (out_pending c == 0) ≡ 1
          → (producer_low_water ≤ length d.out) ⊎ (d.producer ≡ none)
          → measure d < measure c
      of_cases same was empty (inr n) =
          let done : flag (is_some d.producer) ≡ 0 = ap (λ o. flag (is_some o)) n in
          omega (arith, flag_bound (out_pending d == 0))
      of_cases same was empty (inl h) =
          let gone : length c.out ≡ 0 = ap length (v.drained (omega (arith, v.within))) in
          let zero_off : d.out_off ≡ 0 = x.same_off ∙ omega (arith, v.within) in
          let pending : flag (out_pending d == 0) ≡ 0 =
            flag_pending (out_pending d) (omega arith) in
          omega (arith, flag_bound (is_some d.producer))

  body_round-Falls :
      (env : Env P) (t : Turn P) (file : Option ℕ) (producer : Option P)
      → t.conn.producer ≡ producer
      → out_pending t.conn ≡ 0
      → HasOutput t.conn
      → Falls (measure t.conn) t.progress (body_round env t file producer)
  unfolding body_round produce_round
  body_round-Falls env t (some fd) producer e z v = sendfile_round-Falls t fd
  body_round-Falls env t none (some p) e z v =
      of_refill (refill_from_producer env.pull t.conn) λ d q.
        refilled_falls t.conn d p e z v (refill_from_producer-Extends env.pull t.conn d q)
          (refill_from_producer_cases env.pull t.conn d q)
    where
      of_refill :
          (o : Option (Connection P))
          → ((d : Connection P) → o ≡ some d → measure d < measure t.conn)
          → Falls (measure t.conn) t.progress (on_refilled t o)
      of_refill none h = tt
      of_refill (some d) h = h d refl
  body_round-Falls env t none none e z v = (omega arith, inl)

  write_round-Falls :
      (env : Env P) (t : Turn P)
      → HasOutput t.conn
      → Falls (measure t.conn) t.progress (write_round env t)
  unfolding write_round
  write_round-Falls env t v =
      if_each (Falls (measure t.conn) t.progress) (ltb 0 (out_pending t.conn))
        (λ e. send_round-Falls t)
        (λ e. body_round-Falls env t t.conn.file t.conn.producer refl (ground arith) v)

  -- What the loop returns from a turn with that measure and that flag: where the connection lives, it
  -- has made no progress of its own, or the measure has fallen.
  abbrev pub Paid : ℕ → Bool → Turn P × Bool → Type 0
  Paid m progress r =
      r.1 ≡ true
      → (measure r.0.conn ≤ m) × (r.0.progress ≡ true → (progress ≡ true) ⊎ (measure r.0.conn < m))

  abbrev pub Returns : ℕ → Bool → Option (Turn P × Bool) → Type ℓ
  Returns m progress o = (r : Turn P × Bool) × (o ≡ some r) × Paid m progress r

  after_round-Returns :
      (m : ℕ) (progress : Bool) (c : Connection P) (w : WriteRound P)
      (k : Turn P → Option (Turn P × Bool))
      → Falls m progress w
      → CarriesRound c w
      → ((u : Turn P)
          → measure u.conn < m
          → HasOutput u.conn
          → Returns (measure u.conn) u.progress (k u))
      → Returns m progress (after_round w k)
  after_round-Returns m progress c (fails u) k f h ih = ((u, false), refl, λ e. absurd (cc))
  after_round-Returns m progress c (stops u) k f h ih = ((u, true), refl, λ e. f)
  after_round-Returns m progress c (goes_on u) k f h ih =
      let (r, e, paid) = ih u f h.0 in
      (r, e, λ alive. let (le, _) = paid alive in (omega arith, λ _. inr (omega arith)))

  write_loop-Returns :
      (env : Env P) (fuel : ℕ) (t : Turn P)
      → measure t.conn < fuel
      → HasOutput t.conn
      → Returns (measure t.conn) t.progress (write_loop env fuel t)
  unfolding write_loop
  write_loop-Returns env zero t h v = absurd (omega arith)
  write_loop-Returns env (suc fuel) t h v =
      elim t.conn.can_write
        as (λ b. Returns (measure t.conn) t.progress (elim b [
          | false ↦ some (t, true)
          | true ↦ after_round (write_round env t) (write_loop env fuel)
        ])) [
          | false ↦ ((t, true), refl, λ e. (omega arith, inl))
          | true ↦
              after_round-Returns (measure t.conn) t.progress t.conn (write_round env t)
                (write_loop env fuel) (write_round-Falls env t v) (write_round-Carries env t v)
                λ u f w. write_loop-Returns env fuel u (omega arith) w
        ]

  pub do_write-Returns :
      (env : Env P) (t : Turn P)
      → HasOutput t.conn
      → Returns (measure t.conn) t.progress (do_write env t)
  unfolding do_write
  do_write-Returns env t v =
      write_loop-Returns env (write_fuel t) t
        (omega (arith, flag_bound (out_pending t.conn == 0), flag_bound (is_some t.conn.producer)))
        v

-- While the offset of the output is valid, `do_write` returns, whatever the kernel answers and the
-- producer gives: its loop takes an answer, or it fills the output, or it ends the producer. What it
-- has put on the wire, followed by what is still pending of the output and of the file, is what was
-- there before, and behind it what a body producer has added: no byte is lost, sent twice or out of
-- its order. With no producer it is exactly what was there, and the offset stays valid.
pub do_write-Carries {ℓ} :
    {P : Type ℓ} (env : Env P) (t : Turn P)
    → HasOutput t.conn
    → (r : Turn P × Bool) × (do_write env t ≡ some r) × Carries t.conn r.0.conn
unfolding do_write
do_write-Carries env t v =
    let (r, e, paid) = do_write-Returns env t v in
    (r, e, write_loop-Carries env (write_fuel t) t r v e)
