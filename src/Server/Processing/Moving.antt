-- ===== src/Server/Processing/Moving.antt =====
-- The moves of `process`: an error is answered, `100 Continue` is sent, a request is answered.
use http.Base.{
  ℕ, ◌+◌, ◌*◌, ◌≤◌, ◌<◌, ◌≡◌, refl, ◌∙◌, ap, sym, subst, inr, true, false, not, ◌&&◌, ◌++◌, Option,
  none, some, codes, if_both, if_each, arith,
}
use http.Request.{status_for}
use http.Parser.{
  State, RequestParser, done, is_done, is_request_line, is_error, is_done_parser, headers_complete,
  take_request, reset,
}
use http.Response.{empty_response}
use http.Router.{dispatch}
use http.ByteBuffer.{size}
use http.ByteBuffer.Prepare.{IsValid}
use http.Metrics.{bump}
use http.Server.Reading.Absorbed.{AllFit}
use http.Server.{Socket, Connection, Turn, Env, is_some}
use http.Server.Writing.{as_items}
use http.Server.Writing.Items.{file_rest, flow}
use http.Server.Writing.Measure.{answers, flag, flag_bound}
use http.Server.Sharing.{SameWorker, SameWorker-refl, SameWorker-trans}
use http.Server.Steps.{recv_work, ripe, effort, IsSound, Moves, Moves-refl}
use http.Server.Processing.{
  feed_input, send_continue, dispatch_request, respond, queue_error, answer_request, answer_error,
  may_process, record_response,
}
use http.Server.Processing.Replying.{
  Replied, Replied-HasOutput, Replied-flow, Replied-pending, flag_closing, respond-Replied,
  queue_error-Replied, respond-SameWorker, queue_error-SameWorker,
}

none_of {ℓ} : {A : Type ℓ} (o : Option A) → is_some o ≡ false → o ≡ none
none_of none e = refl
none_of (some a) e = absurd (cc)

pub ripe_done : (p : RequestParser) → is_done_parser p ≡ true → ripe p ≡ 1
ripe_done p e = of_state p.state e
  where
    of_state :
        (s : State) → is_done s ≡ true → flag (not (is_request_line s) && not (is_error s)) ≡ 1
    of_state done q = refl
    of_state _ q = absurd (cc)

module _ {ℓ} {P : Type ℓ} where
  -- Nothing stands behind the output, and no end is to come.
  pub record IsOpen (c : Connection P) : Type ℓ where
    pub no_file : c.file ≡ none
    pub no_producer : c.producer ≡ none
    pub stays : c.close_after_write ≡ false

  pub may_process-IsOpen : (c : Connection P) → may_process c ≡ true → IsOpen c
  may_process-IsOpen c e = record {
    no_file = none_of c.file (ground arith);
    no_producer = none_of c.producer (ground arith);
    stays = ground arith;
  }

  pub feed_input-IsOpen : (t : Turn P) → IsOpen t.conn → IsOpen (feed_input t).conn
  unfolding feed_input
  feed_input-IsOpen t o = record {
    no_file = o.no_file;
    no_producer = o.no_producer;
    stays = o.stays;
  }

  -- What a reply may add to, and what it may end.
  abbrev dues : Connection P → ℕ
  dues c =
      flag (is_some c.producer)
      + (flag (not c.continue_sent) + (4 * ripe c.parser + flag (not c.close_after_write)))

  Replied-effort : (c d : Connection P) → Replied c d → effort d + dues c ≤ effort c + dues d
  Replied-effort c d r =
      let same : size d.input ≡ size c.input = ap size r.same_input in
      let kernel : measure_of d ≡ measure_of c =
        ap (λ x. 2 * answers x + 5 * recv_work x.recvs) r.same_socket in
      omega (arith, Replied-pending c d r)
    where
      measure_of : Connection P → ℕ
      measure_of x = 2 * answers x.socket + 5 * recv_work x.socket.recvs

  -- A reply to a connection with the flow of the first costs less than what it ends.
  Replied-Moves :
      (t u : Turn P) (c : Connection P)
      → flow c ≡ flow t.conn
      → c.file ≡ none
      → IsSound c
      → Replied c u.conn
      → SameWorker t.worker u.worker
      → effort u.conn < effort t.conn
      → Moves t u
  Replied-Moves t u c e f s r w l = record {
    sound = record {
      valid = subst IsValid (sym r.same_input) s.valid;
      fits = Replied-HasOutput c u.conn r s.fits;
      kernel = subst (λ (k : Socket). AllFit k.recvs) (sym r.same_socket) s.kernel;
    };
    more = as_items r.bytes ++ file_rest u.conn.file u.conn.file_off u.conn.file_left;
    carried =
        Replied-flow c u.conn f s.fits r
        ∙ ap
            (λ x. x ++ (as_items r.bytes ++ file_rest u.conn.file u.conn.file_off u.conn.file_left))
            e;
    worker = w;
    bounded = omega (arith, l);
    paid = λ _. inr l;
  }

  pub answer_error-Moves :
      (env : Env P) (t : Turn P) → IsOpen t.conn → IsSound t.conn → Moves t (answer_error env t)
  unfolding answer_error queue_error record_response
  answer_error-Moves env t o s =
      let w = t.worker in
      let counted : Turn P = record t {
        worker = record w {
          metrics = record w.metrics { parse_errors = bump w.metrics.parse_errors 1 };
        };
      } in
      let status = status_for t.conn.parser.error_code in
      let r = queue_error-Replied env counted status t.conn.parser.error_detail in
      let v : SameWorker w counted.worker = record {
        conns = refl;
        accepted = refl;
        closed = refl;
        draining = refl;
        listening = refl;
      } in
      let now : flag (not t.conn.close_after_write) ≡ 1 = ap (λ b. flag (not b)) o.stays in
      Replied-Moves t (answer_error env t) t.conn refl o.no_file s r
        (SameWorker-trans v (queue_error-SameWorker env counted status t.conn.parser.error_detail))
        (omega (arith, Replied-effort t.conn _ r))

  pub send_continue-Moves :
      (t : Turn P) → IsOpen t.conn → IsSound t.conn → Moves t (send_continue t)
  unfolding send_continue
  send_continue-Moves t o s =
      let c = t.conn in
      if_each (Moves t)
        (c.parser.req.expect_continue
          && not c.continue_sent
          && headers_complete c.parser
          && not (is_done_parser c.parser))
        (λ e.
          let r : Replied c (record c {
            out = c.out ++ codes "HTTP/1.1 100 Continue\r\n\r\n";
            continue_sent = true;
          }) =
            record {
              bytes = codes "HTTP/1.1 100 Continue\r\n\r\n";
              out_more = refl;
              same_off = refl;
              same_socket = refl;
              same_input = refl;
              same_parser = refl;
              closing = λ h. h;
            } in
          let fresh : c.continue_sent ≡ false = ground arith in
          let now : flag (not c.continue_sent) ≡ 1 = ap (λ b. flag (not b)) fresh in
          Replied-Moves t _ c refl o.no_file s r (SameWorker-refl t.worker)
            (omega (arith, Replied-effort c _ r)))
        (λ e. Moves-refl t s)

  -- What `send_continue` leaves.
  abbrev pub Waits : Turn P → Turn P → Type ℓ
  Waits t u =
      (u.conn.input ≡ t.conn.input)
      × (u.conn.parser ≡ t.conn.parser)
      × (IsOpen t.conn → IsOpen u.conn)

  pub send_continue-Waits : (t : Turn P) → Waits t (send_continue t)
  unfolding send_continue
  send_continue-Waits t =
      let c = t.conn in
      if_both (Waits t)
        (c.parser.req.expect_continue
          && not c.continue_sent
          && headers_complete c.parser
          && not (is_done_parser c.parser))
        (
          refl,
          refl,
          λ o. record { no_file = o.no_file; no_producer = o.no_producer; stays = o.stays },
        )
        (refl, refl, λ o. o)

  pub answer_request-Moves :
      (env : Env P) (t : Turn P)
      → IsOpen t.conn
      → IsSound t.conn
      → is_done_parser t.conn.parser ≡ true
      → Moves t (answer_request env t)
        × ((answer_request env t).conn.input ≡ t.conn.input)
        × (ripe (answer_request env t).conn.parser ≡ 0)
  unfolding answer_request dispatch_request take_request reset
  answer_request-Moves env t o s d =
      let q = (take_request t.conn.parser).1 in
      let req = (take_request t.conn.parser).0 in
      let ready : Turn P = record t { conn = record t.conn { parser = q } } in
      let res = dispatch env.routes req empty_response in
      let u = respond env ready req res in
      let x = respond-Replied env ready req res in
      let r : Replied ready.conn (record u.conn { continue_sent = false }) = record {
        bytes = x.bytes;
        out_more = x.out_more;
        same_off = x.same_off;
        same_socket = x.same_socket;
        same_input = x.same_input;
        same_parser = x.same_parser;
        closing = x.closing;
      } in
      let idle : ripe u.conn.parser ≡ 0 = ap ripe x.same_parser in
      let was = ripe_done t.conn.parser d in
      let alone : flag (is_some t.conn.producer) ≡ 0 = ap (λ p. flag (is_some p)) o.no_producer in
      (
        Replied-Moves t (answer_request env t) ready.conn refl o.no_file
            (record { valid = s.valid; fits = s.fits; kernel = s.kernel }) r
            (respond-SameWorker env ready req res)
            (omega (
              arith,
              Replied-effort ready.conn _ r,
              flag_bound (is_some u.conn.producer),
              idle,
              was,
              alone,
              flag_closing ready.conn.close_after_write u.conn.close_after_write x.closing,
            )),
        x.same_input,
        idle,
      )
