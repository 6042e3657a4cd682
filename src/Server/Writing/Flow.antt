-- ===== src/Server/Writing/Flow.antt =====
-- What `do_write` puts on the wire: the output in its order, each byte once.
use http.Base.{
  ℕ, zero, suc, ◌≡◌, ◌≢◌, refl, ◌∙◌, ap, sym, subst, inl, inr, Bool, true, false, ◌++◌, Option,
  none, some, ltb, if_each, arith, Bool-cases, drop, drop-append_of_le,
}
use http.Server.{Connection, Turn, Env, out_pending}
use http.Server.Producing.{refill_from_producer}
use http.Server.Producing.Appending.{Extends, refill_from_producer-Extends}
use http.Server.Writing.{
  WriteRound, fails, stops, goes_on, as_items, on_refilled, produce_round, body_round, after_round,
  write_round, write_loop,
}
use http.Server.Writing.Items.{
  OutputFits, HasOutput, file_rest, Carries, Carries-same, Carries-trans, file_rest_none,
  flow_appended, OutputFits-append,
}
use http.Server.Writing.Sending.{CarriesRound, send_round-Carries, sendfile_round-Carries}

module _ {ℓ} {P : Type ℓ} where
  -- More output is carried where no file waits behind it.
  pub Carries-Extends :
      (c d : Connection P)
      → c.file ≡ none
      → c.producer ≢ none
      → HasOutput c
      → Extends c d
      → Carries c d
  Carries-Extends c d f p v x =
      let rest = file_rest_none c.file c.file_off c.file_left f in
      let rest' = file_rest_none d.file d.file_off d.file_left (x.same_file ∙ f) in
      let pending : drop d.out_off d.out ≡ drop c.out_off c.out ++ x.more =
        ap (λ k. drop k d.out) x.same_off
        ∙ ap (drop c.out_off) x.out_more
        ∙ drop-append_of_le c.out_off c.out x.more v.within in
      let fits : OutputFits d.out d.out_off =
        subst (λ o. OutputFits o d.out_off) (sym x.out_more)
          (subst (OutputFits (c.out ++ x.more)) (sym x.same_off)
            (OutputFits-append c.out x.more c.out_off v)) in
      (
        fits,
        as_items x.more,
        ap
              (λ w.
                w.wire
                ++ (as_items (drop d.out_off d.out) ++ file_rest d.file d.file_off d.file_left))
              x.same_socket
            ∙ ap (λ s. c.socket.wire ++ (as_items s ++ file_rest d.file d.file_off d.file_left))
                pending
            ∙ flow_appended c.socket.wire (drop c.out_off c.out) x.more _ _ rest' rest,
        λ n. absurd (p n),
      )

  on_refilled-Carries :
      (t : Turn P) (o : Option (Connection P))
      → HasOutput t.conn
      → ((d : Connection P) → o ≡ some d → Carries t.conn d)
      → CarriesRound t.conn (on_refilled t o)
  on_refilled-Carries t none v h = Carries-same t.conn t.conn v refl refl
  on_refilled-Carries t (some d) v h = h d refl

  produce_round-Carries :
      (env : Env P) (t : Turn P)
      → t.conn.file ≡ none
      → t.conn.producer ≢ none
      → HasOutput t.conn
      → CarriesRound t.conn (produce_round env t)
  unfolding produce_round
  produce_round-Carries env t f p v =
      on_refilled-Carries t (refill_from_producer env.pull t.conn) v
        λ d e. Carries-Extends t.conn d f p v (refill_from_producer-Extends env.pull t.conn d e)

  body_round-Carries :
      (env : Env P) (t : Turn P) (file : Option ℕ) (producer : Option P)
      → t.conn.file ≡ file
      → t.conn.producer ≡ producer
      → out_pending t.conn ≡ 0
      → HasOutput t.conn
      → CarriesRound t.conn (body_round env t file producer)
  unfolding body_round
  body_round-Carries env t (some fd) producer f p z v = sendfile_round-Carries t fd f z v
  body_round-Carries env t none (some x) f p z v = produce_round-Carries env t f (λ n. cc) v
  body_round-Carries env t none none f p z v = Carries-same t.conn t.conn v refl refl

  pub write_round-Carries :
      (env : Env P) (t : Turn P) → HasOutput t.conn → CarriesRound t.conn (write_round env t)
  unfolding write_round
  write_round-Carries env t v =
      if_each (CarriesRound t.conn) (ltb 0 (out_pending t.conn)) (λ e. send_round-Carries t v)
        (λ e. body_round-Carries env t t.conn.file t.conn.producer refl refl (ground arith) v)

  after_round-Carries :
      (c : Connection P) (w : WriteRound P) (k : Turn P → Option (Turn P × Bool))
      (r : Turn P × Bool)
      → CarriesRound c w
      → ((u : Turn P) → HasOutput u.conn → k u ≡ some r → Carries u.conn r.0.conn)
      → after_round w k ≡ some r
      → Carries c r.0.conn
  after_round-Carries c (fails u) k r h ih e =
      subst (λ (x : Turn P × Bool). Carries c x.0.conn) (let z : (u, false) ≡ r = cc in z) h
  after_round-Carries c (stops u) k r h ih e =
      subst (λ (x : Turn P × Bool). Carries c x.0.conn) (let z : (u, true) ≡ r = cc in z) h
  after_round-Carries c (goes_on u) k r h ih e = Carries-trans c u.conn r.0.conn h (ih u h.0 e)

  pub write_loop-Carries :
      (env : Env P) (fuel : ℕ) (t : Turn P) (r : Turn P × Bool)
      → HasOutput t.conn
      → write_loop env fuel t ≡ some r
      → Carries t.conn r.0.conn
  unfolding write_loop
  write_loop-Carries env zero t r v e = absurd (cc)
  write_loop-Carries env (suc fuel) t r v e = elim (Bool-cases t.conn.can_write) [
    | inl b ↦
        after_round-Carries t.conn (write_round env t) (write_loop env fuel) r
          (write_round-Carries env t v) (λ u. write_loop-Carries env fuel u r)
          (rw (b, write_loop) at e)
    | inr b ↦
        subst (λ (x : Turn P × Bool). Carries t.conn x.0.conn)
          (let z : (t, true) ≡ r = ground (arith, b) in z) (Carries-same t.conn t.conn v refl refl)
  ]
