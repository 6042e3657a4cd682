-- ===== src/Server/Processing/Running.antt =====
-- `process` returns, and what it does is a run of moves.
use http.Base.{
  ℕ, zero, suc, ◌+◌, ◌*◌, ◌<◌, ◌≡◌, refl, ◌∙◌, ap, sym, inl, inr, Bool, true, false, not, ◌&&◌,
  Option, some, if_each, length, arith,
}
use http.Parser.{failed, started, is_done_parser}
use http.ByteBuffer.{size, readable}
use http.ByteBuffer.Prepare.{length-readable}
use http.Server.{Turn, Env}
use http.Server.Writing.Measure.{flag_bound}
use http.Server.Steps.{ripe, IsSound, Moves, Moves-refl, Moves-trans}
use http.Server.Processing.{
  ProcessRound, settles, answers, feed_input, send_continue, answer_request, may_process,
  process_round, after_process, process_loop, process,
}
use http.Server.Processing.Feeding.{
  used_of_bound, feed_input-size, feed_input-ripe, feed_input-Moves,
}
use http.Server.Processing.Moving.{
  IsOpen, may_process-IsOpen, feed_input-IsOpen, answer_error-Moves, send_continue-Moves,
  send_continue-Waits, answer_request-Moves, ripe_done,
}

module _ {ℓ} {P : Type ℓ} where
  -- The bytes to read, and that a request is under way.
  abbrev unread : Turn P → ℕ
  unread t = 2 * size t.conn.input + ripe t.conn.parser

  abbrev Rounds : Turn P → ProcessRound P → Type ℓ
  Rounds t (settles u) = Moves t u
  Rounds t (answers u) = Moves t u × (unread u < unread t)

  process_round-Rounds :
      (env : Env P) (t : Turn P) → IsOpen t.conn → IsSound t.conn → Rounds t (process_round env t)
  unfolding process_round
  process_round-Rounds env t o s =
      let u = feed_input t in
      let fed = feed_input-Moves t s in
      let open_fed = feed_input-IsOpen t o in
      let v = send_continue u in
      let (same_input, same_parser, stays) = send_continue-Waits u in
      let sent = Moves-trans fed (send_continue-Moves u open_fed fed.sound) in
      if_each (Rounds t) (failed u.conn.parser)
        (λ e. Moves-trans fed (answer_error-Moves env u open_fed fed.sound))
        (λ e.
          if_each (Rounds t) (is_done_parser v.conn.parser)
            (λ d.
              let (moves, input, idle) = answer_request-Moves env v (stays open_fed) sent.sound d in
              let sizes : size (answer_request env v).conn.input ≡ size u.conn.input =
                ap size (input ∙ same_input) in
              let was : ripe u.conn.parser ≡ 1 =
                ap ripe (sym same_parser) ∙ ripe_done v.conn.parser d in
              let left = feed_input-size t s.valid in
              let bound = used_of_bound t s.valid in
              (
                Moves-trans sent moves,
                elim (feed_input-ripe t) [ inl n ↦ omega arith | inr r ↦ omega arith ],
              ))
            (λ d. sent))

  abbrev Ends : Turn P → Option (Turn P) → Type ℓ
  Ends t o = (u : Turn P) × (o ≡ some u) × Moves t u

  after_process-Ends :
      (t : Turn P) (r : ProcessRound P) (k : Turn P → Option (Turn P))
      → Rounds t r
      → ((u : Turn P) → IsSound u.conn → unread u < unread t → Ends u (k u))
      → Ends t (after_process r k)
  after_process-Ends t (settles u) k h ih = (u, refl, h)
  after_process-Ends t (answers u) k h ih =
      let (v, e, m) = ih u h.0.sound h.1 in (v, e, Moves-trans h.0 m)

  process_loop-Ends :
      (env : Env P) (fuel : ℕ) (t : Turn P)
      → IsSound t.conn
      → unread t < fuel
      → Ends t (process_loop env fuel t)
  unfolding process_loop
  process_loop-Ends env zero t s h = absurd (omega arith)
  process_loop-Ends env (suc fuel) t s h =
      of_test (may_process t.conn) refl λ u v l. process_loop-Ends env fuel u v (omega arith)
    where
      of_test :
          (b : Bool)
          → may_process t.conn ≡ b
          → ((u : Turn P) → IsSound u.conn → unread u < unread t → Ends u (process_loop env fuel u))
          → Ends t (elim b [
            | false ↦ some t
            | true ↦ after_process (process_round env t) (process_loop env fuel)
          ])
      of_test false e ih = (t, refl, Moves-refl t s)
      of_test true e ih =
          after_process-Ends t (process_round env t) (process_loop env fuel)
            (process_round-Rounds env t (may_process-IsOpen t.conn e) s) ih

-- On a connection whose input buffer and output are well formed, `process` returns, whatever the
-- client has sent, and what it does is a move: the buffer and the output stay well formed, what is on
-- the wire and pending is only added to behind, the worker's connections, the counts of those that were
-- accepted and closed, and whether it drains and listens are left alone, and progress uses up work that
-- is left.
pub process-Moves {ℓ} :
    {P : Type ℓ} (env : Env P) (t : Turn P)
    → IsSound t.conn
    → (u : Turn P) × (process env t ≡ some u) × Moves t u
unfolding process
process-Moves env t s = process_loop-Ends env (2 * length (readable t.conn.input) + 3) t s (
    omega (
      arith,
      length-readable t.conn.input s.valid,
      flag_bound (started t.conn.parser && not (failed t.conn.parser)),
    ))
