-- ===== src/Server/Processing.antt =====
-- `Server::Worker::process` and what it calls: `dispatch`, `queue_error` and `record_response`.
pub mod Feeding
pub mod Replying
pub mod Moving
pub mod Running
use http.Base.{
  ℕ, zero, suc, ◌+◌, ◌-◌, ◌*◌, ◌/◌, ◌%◌, ◌^◌, Bool, true, false, not, ◌&&◌, ◌||◌, [], ◌++◌, Option,
  none, some, Bytes, codes, ltb, leb, ◌==◌, if◌then◌else◌, length, equal,
}
use Prim.Native.String.{String}
use http.Ascii.{is_empty}
use http.Request.{Request, keep_alive, is_http10, status_for}
use http.Parser.{RequestParser, failed, is_done_parser, headers_complete, take_request}
use http.Parser.Feed.{feed}
use http.Response.{
  Response, empty_response, text, plain_text, reason_phrase, HeadOptions, Framing, no_body, chunked,
  write_head, is_close_delimited,
}
use http.Router.{dispatch}
use http.ByteBuffer.{readable, consume}
use http.Metrics.{WorkerMetrics, bump, bump_at, observe_latency_us}
use http.Server.{
  Connection, Worker, Turn, Env, is_some, out_pending, body_source_active, out_high_water,
}
use http.Server.Date.{get_date}

-- `a - b` in `std::uint64_t`.
abbrev pub since : ℕ → ℕ → ℕ
since a b = (a + 2 ^ 64 - b) % 2 ^ 64

abbrev pub is_no_body : Framing → Bool
is_no_body no_body = true
is_no_body _ = false

abbrev pub is_chunked : Framing → Bool
is_chunked chunked = true
is_chunked _ = false

-- `RequestParser::feed`, whose fuel never runs out.
unfoldable pub fed : RequestParser → Bytes → RequestParser × ℕ
unfolding feed
fed p s = elim (feed p s) [ none ↦ (p, 0) | some r ↦ r ]

-- The counters of a response.
unfoldable pub count_response : WorkerMetrics → ℕ → WorkerMetrics
unfolding bump bump_at
count_response m status =
    let counted = record m { requests = bump m.requests 1 } in
    if leb 1 (status / 100) && leb (status / 100) 5
    then record counted { responses_by_class = bump_at m.responses_by_class (status / 100) }
    else counted

-- What a round of `process` does: it leaves the loop, or a request has been answered.
pub data ProcessRound {ℓ} (P : Type ℓ) : Type ℓ where
  settles : Turn P → ProcessRound P
  answers : Turn P → ProcessRound P

module _ {ℓ} {P : Type ℓ} where
  -- A reading of the clocks.
  abbrev pub tick : Worker P → Worker P
  tick w = record w { readings = w.readings + 1 }

  -- The worker has counted a response to a request that came in at that time, or at none.
  unfoldable pub count_reply : Env P → Worker P → ℕ → ℕ → Worker P
  unfolding count_response observe_latency_us
  count_reply env w started status =
      let m = count_response w.metrics status in
      if started == 0
      then record w { metrics = m }
      else tick
          (record w { metrics = observe_latency_us m (since (env.mono_us w.readings) started) })

  unfoldable pub record_response : Env P → Turn P → ℕ → Turn P
  record_response env t status = record t {
    worker = count_reply env t.worker t.conn.request_start_us status;
    conn = record t.conn { request_start_us = 0 };
  }

  -- The options of a head, and the worker once its clock has been read for the date.
  unfoldable pub head_options : Env P → Worker P → Bool → Bool → HeadOptions × Worker P
  unfolding get_date
  head_options env w alive http10 =
      let (date, cache) = get_date env.format_date w.date (env.wall w.readings) in
      (
        record { keep_alive = alive; http10_client = http10; date = date },
        record (tick w) { date = cache },
      )

  -- The body of a response that has this file or this producer, if any.
  unfoldable pub send_source :
      Connection P → Response P → Framing → Option ℕ → Option P → Connection P
  send_source c res framing (some fd) producer =
      if ltb 0 res.file_length
      then record c { file = some fd; file_off = res.file_offset; file_left = res.file_length }
      else c
  send_source c res framing none (some p) =
      let left : ℕ = elim res.stream_length [ none ↦ 0 | some n ↦ n ] in
      let sized = is_some res.stream_length in
      record c {
        chunked = is_chunked framing;
        stream_sized = sized;
        stream_left = left;
        trailers = [];
        producer = if sized && left == 0 then c.producer else some p;
      }
  send_source c res framing none none = record c { out = c.out ++ res.body }

  -- Where the body of a response is taken from.
  unfoldable pub send_body : Connection P → Response P → Framing → Connection P
  send_body c res framing = send_source c res framing res.file res.producer

  -- What `dispatch` does once the router has answered.
  unfoldable pub respond : Env P → Turn P → Request → Response P → Turn P
  unfolding keep_alive is_http10 head_options write_head send_body record_response equal
  respond env t req res =
      let (opts, w) =
        head_options env t.worker (keep_alive req && not t.worker.draining) (is_http10 req) in
      let (out, framing) = write_head t.conn.out res opts in
      let c = record t.conn {
        out = out;
        close_after_write =
            if not opts.keep_alive || is_close_delimited framing
            then true
            else t.conn.close_after_write;
      } in
      let d =
        if not (equal req.method (codes "HEAD")) && not (is_no_body framing)
        then send_body c res framing
        else c in
      record_response env (record t { worker = w; conn = d }) res.status

  -- `dispatch`, the request's.
  unfoldable pub dispatch_request : Env P → Turn P → Request → Turn P
  unfolding dispatch respond
  dispatch_request env t req = respond env t req (dispatch env.routes req empty_response)

  -- The response of `queue_error`.
  unfoldable pub error_response : ℕ → String → Response P
  unfolding reason_phrase text
  error_response status detail =
      text status (((reason_phrase status ++ codes ": ") ++ codes detail) ++ codes "\n") plain_text

  unfoldable pub queue_error : Env P → Turn P → ℕ → String → Turn P
  unfolding error_response head_options write_head record_response
  queue_error env t status detail =
      let res = error_response status detail in
      let (opts, w) = head_options env t.worker false false in
      let (out, framing) = write_head t.conn.out res opts in
      record_response env
        (record t {
          worker = w;
          conn = record t.conn { out = out ++ res.body; close_after_write = true };
        })
        status

  -- The input has been fed to the parser.
  unfoldable pub feed_input : Turn P → Turn P
  unfolding fed readable consume
  feed_input t =
      let c = t.conn in
      let (p, used) = fed c.parser (readable c.input) in
      record t {
        conn = record c {
          parser = p;
          input = consume c.input used;
          request_start_us =
              if c.request_start_us == 0 then t.worker.now_us else c.request_start_us;
        };
        progress = if used == 0 then t.progress else true;
      }

  -- `100 Continue`, once for a request.
  unfoldable pub send_continue : Turn P → Turn P
  send_continue t =
      let c = t.conn in
      if c.parser.req.expect_continue
        && not c.continue_sent
        && headers_complete c.parser
        && not (is_done_parser c.parser)
      then record t {
        conn = record c {
          out = c.out ++ codes "HTTP/1.1 100 Continue\r\n\r\n";
          continue_sent = true;
        };
        progress = true;
      }
      else t

  -- A request that is complete is answered.
  unfoldable pub answer_request : Env P → Turn P → Turn P
  unfolding dispatch_request take_request
  answer_request env t =
      let (req, p) = take_request t.conn.parser in
      let u = dispatch_request env (record t { conn = record t.conn { parser = p } }) req in
      record u { conn = record u.conn { continue_sent = false }; progress = true }

  -- The parser's error is answered.
  unfoldable pub answer_error : Env P → Turn P → Turn P
  unfolding queue_error
  answer_error env t =
      let w = t.worker in
      let counted = record t {
        worker = record w {
          metrics = record w.metrics { parse_errors = bump w.metrics.parse_errors 1 };
        };
      } in
      let u =
        queue_error env counted (status_for t.conn.parser.error_code) t.conn.parser.error_detail in
      record u { progress = true }

  -- The condition of the loop.
  abbrev pub may_process : Connection P → Bool
  may_process c =
      not c.close_after_write
      && not (body_source_active c)
      && ltb (out_pending c) out_high_water
      && not (is_empty (readable c.input))

  -- A round of the loop.
  unfoldable pub process_round : Env P → Turn P → ProcessRound P
  unfolding feed_input send_continue answer_request answer_error
  process_round env t =
      let u = feed_input t in
      let v = send_continue u in
      if failed u.conn.parser
      then settles (answer_error env u)
      else if is_done_parser v.conn.parser
      then answers (answer_request env v)
      else settles v

  -- The loop goes on, or not.
  abbrev pub after_process : ProcessRound P → (Turn P → Option (Turn P)) → Option (Turn P)
  after_process (settles t) following = some t
  after_process (answers t) following = following t

  -- The loop, on fuel; `none` means that the fuel ran out.
  unfoldable pub process_loop : Env P → ℕ → Turn P → Option (Turn P)
  unfolding process_round
  process_loop env zero t = none
  process_loop env (suc fuel) t = elim (may_process t.conn) [
    | false ↦ some t
    | true ↦ after_process (process_round env t) (process_loop env fuel)
  ]

  -- `process`; its result, whether it has made progress, is `or`ed into the flag of the turn.
  unfoldable pub process : Env P → Turn P → Option (Turn P)
  unfolding process_loop
  process env t = process_loop env (2 * length (readable t.conn.input) + 3) t
