-- ===== src/Server/Processing/Replying.antt =====
-- What a reply does to a connection that sends no body: it appends to the output.
use http.Base.{
  ℕ, zero, suc, ◌/◌, ◌≤◌, ◌≡◌, refl, ◌∙◌, ap, sym, subst, Bool, true, false, not, ◌&&◌, ◌||◌, List,
  [], ◌++◌, Option, none, some, Bytes, codes, ltb, leb, ◌==◌, if◌then◌else◌, if_both, length,
  length-append, append_assoc, append-nil, arith, drop, drop-append_of_le, equal,
}
use Prim.Native.String.{String}
use http.Request.{Request, keep_alive, is_http10}
use http.Response.{
  Response, choose_framing, write_head, Framing, HeadOptions, is_close_delimited, append_status,
}
use http.Response.Head.{render, head_fields}
use http.Response.Declared.{write_head-Declares}
use http.Metrics.{WorkerMetrics, observe_latency_us}
use http.Server.{Item, Socket, Connection, Worker, Turn, Env, out_pending}
use http.Server.Writing.{as_items}
use http.Server.Writing.Items.{
  OutputFits, HasOutput, file_rest, flow, as_items-append, file_rest_none, OutputFits-append,
}
use http.Server.Writing.Measure.{flag}
use http.Server.Sharing.{SameWorker}
use http.Server.Processing.{
  is_no_body, count_response, count_reply, record_response, head_options, send_source, send_body,
  respond, error_response, queue_error,
}

-- The second is the first with more output, and perhaps a body to send or an end to come.
pub record Replied {ℓ} {P : Type ℓ} (c d : Connection P) : Type ℓ where
  pub bytes : Bytes
  pub out_more : d.out ≡ c.out ++ bytes
  pub same_off : d.out_off ≡ c.out_off
  pub same_socket : d.socket ≡ c.socket
  pub same_input : d.input ≡ c.input
  pub same_parser : d.parser ≡ c.parser
  pub closing : c.close_after_write ≡ true → d.close_after_write ≡ true

flow_replied :
    (wire : List Item) (pending more : Bytes) (r s : List Item)
    → s ≡ []
    → wire ++ (as_items (pending ++ more) ++ r)
      ≡ (wire ++ (as_items pending ++ s)) ++ (as_items more ++ r)
flow_replied wire pending more r s e = rw e (simp (as_items-append, append_assoc, append-nil))

flag_zero : (m n : ℕ) → m ≤ n → flag (n == 0) ≤ flag (m == 0)
flag_zero zero n h = elim (n == 0) as (λ b. flag b ≤ 1) [ true ↦ omega arith | false ↦ omega arith ]
flag_zero (suc m) n h =
    let e : (n == 0) ≡ false = ground arith in let z : flag (n == 0) ≡ 0 = ap flag e in omega arith

pub flag_closing : (a b : Bool) → (a ≡ true → b ≡ true) → flag (not b) ≤ flag (not a)
flag_closing true true h = omega arith
flag_closing true false h = absurd (let e = h refl in cc)
flag_closing false true h = omega arith
flag_closing false false h = omega arith

count_response_same :
    (m : WorkerMetrics) (status : ℕ)
    → ((count_response m status).connections_accepted ≡ m.connections_accepted)
      × ((count_response m status).connections_closed ≡ m.connections_closed)
unfolding count_response
count_response_same m status =
    if_both
      (λ (x : WorkerMetrics).
        (x.connections_accepted ≡ m.connections_accepted)
        × (x.connections_closed ≡ m.connections_closed))
      (leb 1 (status / 100) && leb (status / 100) 5) (refl, refl) (refl, refl)

module _ {ℓ} {P : Type ℓ} where
  pub Replied-HasOutput : (c d : Connection P) → Replied c d → HasOutput c → HasOutput d
  Replied-HasOutput c d r v =
      subst (λ o. OutputFits o d.out_off) (sym r.out_more)
        (subst (OutputFits (c.out ++ r.bytes)) (sym r.same_off)
          (OutputFits-append c.out r.bytes c.out_off v))

  pub Replied-flow :
      (c d : Connection P)
      → c.file ≡ none
      → HasOutput c
      → (r : Replied c d)
      → flow d ≡ flow c ++ (as_items r.bytes ++ file_rest d.file d.file_off d.file_left)
  Replied-flow c d f v r =
      let pending : drop d.out_off d.out ≡ drop c.out_off c.out ++ r.bytes =
        ap (λ k. drop k d.out) r.same_off
        ∙ ap (drop c.out_off) r.out_more
        ∙ drop-append_of_le c.out_off c.out r.bytes v.within in
      let rest = file_rest d.file d.file_off d.file_left in
      ap (λ (w : Socket). w.wire ++ (as_items (drop d.out_off d.out) ++ rest)) r.same_socket
      ∙ ap (λ s. c.socket.wire ++ (as_items s ++ rest)) pending
      ∙ flow_replied c.socket.wire (drop c.out_off c.out) r.bytes rest
          (file_rest c.file c.file_off c.file_left) (file_rest_none c.file c.file_off c.file_left f)

  pub Replied-pending :
      (c d : Connection P) → Replied c d → flag (out_pending d == 0) ≤ flag (out_pending c == 0)
  Replied-pending c d r =
      let l : length d.out ≡ length (c.out ++ r.bytes) = ap length r.out_more in
      flag_zero (out_pending c) (out_pending d)
        (omega (arith, length-append c.out r.bytes, r.same_off))

  -- The head goes behind the output.
  write_head_more :
      (out : Bytes) (res : Response P) (opts : HeadOptions)
      → (head : Bytes) × ((write_head out res opts).0 ≡ out ++ head)
  write_head_more out res opts =
      let (k, n) = choose_framing res opts in
      (
        append_status [] res.status ++ (render (head_fields res opts k n) ++ codes "\r\n"),
        (write_head-Declares out res opts).0,
      )

  -- More output goes behind.
  Replied-append :
      (c d : Connection P) (s : Bytes) → Replied c d → Replied c (record d { out = d.out ++ s })
  Replied-append c d s r = record {
    bytes = r.bytes ++ s;
    out_more = ap (λ o. o ++ s) r.out_more ∙ append_assoc c.out r.bytes s;
    same_off = r.same_off;
    same_socket = r.same_socket;
    same_input = r.same_input;
    same_parser = r.same_parser;
    closing = r.closing;
  }

  -- The source of a body is no part of the output.
  Replied-source :
      (c d e : Connection P)
      → e.out ≡ d.out
      → e.out_off ≡ d.out_off
      → e.socket ≡ d.socket
      → e.input ≡ d.input
      → e.parser ≡ d.parser
      → e.close_after_write ≡ d.close_after_write
      → Replied c d
      → Replied c e
  Replied-source c d e o f s i p k r = record {
    bytes = r.bytes;
    out_more = o ∙ r.out_more;
    same_off = f ∙ r.same_off;
    same_socket = s ∙ r.same_socket;
    same_input = i ∙ r.same_input;
    same_parser = p ∙ r.same_parser;
    closing = λ h. k ∙ r.closing h;
  }

  send_source-Replied :
      (c d : Connection P) (res : Response P) (framing : Framing) (file : Option ℕ)
      (producer : Option P)
      → Replied c d
      → Replied c (send_source d res framing file producer)
  unfolding send_source
  send_source-Replied c d res framing (some fd) producer r =
      if_both (Replied c) (ltb 0 res.file_length)
        (Replied-source c d _ refl refl refl refl refl refl r) r
  send_source-Replied c d res framing none (some p) r =
      Replied-source c d _ refl refl refl refl refl refl r
  send_source-Replied c d res framing none none r = Replied-append c d res.body r

  send_body-Replied :
      (c d : Connection P) (res : Response P) (framing : Framing)
      → Replied c d
      → Replied c (send_body d res framing)
  unfolding send_body
  send_body-Replied c d res framing r = send_source-Replied c d res framing res.file res.producer r

  -- A head behind the output, and perhaps an end to come.
  headed :
      (c : Connection P) (res : Response P) (opts : HeadOptions) (close : Bool)
      → (c.close_after_write ≡ true → close ≡ true)
      → Replied c (record c { out = (write_head c.out res opts).0; close_after_write = close })
  headed c res opts close h =
      let (head, e) = write_head_more c.out res opts in
      record {
        bytes = head;
        out_more = e;
        same_off = refl;
        same_socket = refl;
        same_input = refl;
        same_parser = refl;
        closing = h;
      }

  pub respond-Replied :
      (env : Env P) (t : Turn P) (req : Request) (res : Response P)
      → Replied t.conn (respond env t req res).conn
  unfolding respond record_response
  respond-Replied env t req res =
      let opts =
        (head_options env t.worker (keep_alive req && not t.worker.draining) (is_http10 req)).0 in
      let framing = (write_head t.conn.out res opts).1 in
      let close =
        if not opts.keep_alive || is_close_delimited framing
        then true
        else t.conn.close_after_write in
      let c = record t.conn {
        out = (write_head t.conn.out res opts).0;
        close_after_write = close;
      } in
      let h =
        headed t.conn res opts close (λ e.
          if_both (λ b. b ≡ true) (not opts.keep_alive || is_close_delimited framing) refl e) in
      Replied-source t.conn _ _ refl refl refl refl refl refl (
        if_both (Replied t.conn) (not (equal req.method (codes "HEAD")) && not (is_no_body framing))
          (send_body-Replied t.conn c res framing h) h)

  pub queue_error-Replied :
      (env : Env P) (t : Turn P) (status : ℕ) (detail : String)
      → Replied t.conn (queue_error env t status detail).conn
  unfolding queue_error record_response
  queue_error-Replied env t status detail =
      let res : Response P = error_response status detail in
      let opts = (head_options env t.worker false false).0 in
      Replied-source t.conn _ _ refl refl refl refl refl refl (
        Replied-append t.conn
          (record t.conn { out = (write_head t.conn.out res opts).0; close_after_write = true })
          res.body (headed t.conn res opts true (λ e. refl)))

  count_reply-SameWorker :
      (env : Env P) (w v : Worker P) (started status : ℕ)
      → SameWorker w v
      → SameWorker w (count_reply env v started status)
  unfolding count_reply observe_latency_us
  count_reply-SameWorker env w v started status h =
      let (a, b) = count_response_same v.metrics status in
      let same : SameWorker w (record v { metrics = count_response v.metrics status }) = record {
        conns = h.conns;
        accepted = a ∙ h.accepted;
        closed = b ∙ h.closed;
        draining = h.draining;
        listening = h.listening;
      } in
      if_both (SameWorker w) (started == 0) same (record {
        conns = h.conns;
        accepted = a ∙ h.accepted;
        closed = b ∙ h.closed;
        draining = h.draining;
        listening = h.listening;
      })

  -- The date's cache and the clock are nobody else's.
  head_options-SameWorker :
      (env : Env P) (w : Worker P) (alive http10 : Bool)
      → SameWorker w (head_options env w alive http10).1
  unfolding head_options
  head_options-SameWorker env w alive http10 = record {
    conns = refl;
    accepted = refl;
    closed = refl;
    draining = refl;
    listening = refl;
  }

  pub respond-SameWorker :
      (env : Env P) (t : Turn P) (req : Request) (res : Response P)
      → SameWorker t.worker (respond env t req res).worker
  unfolding respond record_response
  respond-SameWorker env t req res = count_reply-SameWorker env t.worker _ _ res.status (
      head_options-SameWorker env t.worker (keep_alive req && not t.worker.draining)
        (is_http10 req))

  pub queue_error-SameWorker :
      (env : Env P) (t : Turn P) (status : ℕ) (detail : String)
      → SameWorker t.worker (queue_error env t status detail).worker
  unfolding queue_error record_response
  queue_error-SameWorker env t status detail =
      count_reply-SameWorker env t.worker _ _ status
        (head_options-SameWorker env t.worker false false)
