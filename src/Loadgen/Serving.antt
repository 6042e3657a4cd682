-- ===== src/Loadgen/Serving.antt =====
-- `service` returns, and keeps the accounts of the load generator, also where the connection is opened
-- again.
use native.Mathlib.Nat.{le_refl}
use http.Base.{
  ℕ, zero, suc, ◌+◌, ◌*◌, ◌/◌, ◌-◌, ◌%◌, ◌≤◌, ◌<◌, Bool, true, false, not, List, [], ◌∷◌, ◌≡◌, refl,
  ◌∙◌, ap, Option, some, ltb, ltb→le, ltb→lt, ◌==◌, length, length-append, min, arith, Bool-cases,
  inl, inr, if_both,
}
use http.Metrics.{bump}
use http.Loadgen.Accounts.{Accounts, EndedWell, work, consume_loop-Ended, enqueue-Accounts}
use http.Loadgen.{
  new_conn, Conn, Setup, Client, read_clock, enqueue, Ended, continues, fails, exited,
  consume_responses,
}
use http.Loadgen.Sockets.{
  append_input, fill_pipeline, open_conn, reopen, settle, share, Received, received, recv_closed,
  recv_blocks, recv_interrupted, recv_fails, recv_loop, Sent, sent, send_blocks, send_interrupted,
  send_fails, on_answer, send_loop, clear_sent, after_send, after_consume, after_recv, service,
}

recv_loop-Accounts :
    (depth : ℕ) (answers : List Received) (x : Client)
    → Accounts depth x
    → Accounts depth (recv_loop answers x).0
unfolding recv_loop
recv_loop-Accounts depth [] x a = a
recv_loop-Accounts depth (received c s ∷ answers) x a =
    recv_loop-Accounts depth answers (append_input x (c ∷ s))
      (record { in_flight = a.in_flight; counted = a.counted; offset = a.offset })
recv_loop-Accounts depth (recv_closed ∷ answers) x a = a
recv_loop-Accounts depth (recv_blocks ∷ answers) x a = a
recv_loop-Accounts depth (recv_interrupted ∷ answers) x a = recv_loop-Accounts depth answers x a
recv_loop-Accounts depth (recv_fails ∷ answers) x a = a

-- Sending leaves the requests in flight alone, and stays within the output.
abbrev SendsFrom : Conn → Conn × Bool → Type 0
SendsFrom c r = (r.0.sent_at ≡ c.sent_at) × (r.0.out_off ≤ length r.0.out)

on_answer-SendsFrom :
    (sending : Conn → Conn × Bool) (c : Conn) (a : Sent)
    → c.out_off ≤ length c.out
    → ((d : Conn) → d.out_off ≤ length d.out → SendsFrom d (sending d))
    → SendsFrom c (on_answer sending c a)
on_answer-SendsFrom sending c (sent zero) l h = (refl, l)
on_answer-SendsFrom sending c (sent (suc n)) l h =
    h (record c { out_off = c.out_off + min (suc n) (length c.out - c.out_off) }) (omega (arith, l))
on_answer-SendsFrom sending c send_blocks l h = (refl, l)
on_answer-SendsFrom sending c send_interrupted l h = h c l
on_answer-SendsFrom sending c send_fails l h = (refl, l)

send_loop-SendsFrom :
    (answers : List Sent) (c : Conn) → c.out_off ≤ length c.out → SendsFrom c (send_loop answers c)
unfolding send_loop
send_loop-SendsFrom [] c l = (refl, l)
send_loop-SendsFrom (a ∷ answers) c l =
    if_both (SendsFrom c) (not (ltb c.out_off (length c.out))) (refl, l)
      (on_answer-SendsFrom (send_loop answers) c a l (send_loop-SendsFrom answers))

clear_sent-SendsFrom : (c : Conn) → c.out_off ≤ length c.out → SendsFrom c (clear_sent c, true)
clear_sent-SendsFrom c l =
    if_both (λ d. SendsFrom c (d, true)) (c.out_off == length c.out) (refl, le_refl _) (refl, l)

after_send-Accounts :
    (depth : ℕ) (x : Client) (r : Conn × Bool)
    → Accounts depth x
    → SendsFrom x.conn r
    → EndedWell depth (after_send x r)
after_send-Accounts depth x (c, true) a s =
    let t = clear_sent-SendsFrom c s.1 in
    record { in_flight = rw (t.0 ∙ s.0) a.in_flight; counted = a.counted; offset = t.1 }
after_send-Accounts depth x (c, false) a s = record {
  in_flight = rw s.0 a.in_flight;
  counted = a.counted;
  offset = s.1;
}

service-EndedWell :
    (depth : ℕ) (setup : Setup) (err : Bool) (receives : List Received) (sends : List Sent)
    (x : Client)
    → Accounts depth x
    → (e : Ended) × (service setup err receives sends x ≡ some e) × EndedWell depth e
unfolding service consume_responses
service-EndedWell depth setup true receives sends x a = (fails x, refl, a)
service-EndedWell depth setup false receives sends x a =
    by_recv (recv_loop receives x) (recv_loop-Accounts depth receives x a)
  where
    by_consume :
        (o : Option Ended) (e : Ended)
        → o ≡ some e
        → EndedWell depth e
        → (r : Ended) × (after_consume sends o ≡ some r) × EndedWell depth r
    by_consume o (continues y) h k = (
      after_send y (send_loop sends y.conn),
      ap (after_consume sends) h,
      after_send-Accounts depth y (send_loop sends y.conn) k
          (send_loop-SendsFrom sends y.conn k.offset),
    )
    by_consume o (fails y) h k = (fails y, ap (after_consume sends) h, k)
    by_consume o exited h k = (exited, ap (after_consume sends) h, k)

    by_recv :
        (r : Client × Bool)
        → Accounts depth r.0
        → (e : Ended) × (after_recv setup sends r ≡ some e) × EndedWell depth e
    by_recv (y, false) k = (fails y, refl, k)
    by_recv (y, true) k =
        let (e, ran, ended) =
          consume_loop-Ended (work y + 1) depth setup y.conn.input y (omega arith) k in
        by_consume (consume_responses setup y) e ran ended

fill_pipeline-Accounts :
    (n depth : ℕ) (setup : Setup) (x : Client)
    → length x.conn.sent_at + n ≤ depth
    → Accounts depth x
    → Accounts depth (fill_pipeline n setup x)
unfolding fill_pipeline enqueue
fill_pipeline-Accounts zero depth setup x l a = a
fill_pipeline-Accounts (suc n) depth setup x l a =
    fill_pipeline-Accounts n depth setup (enqueue setup x)
      (omega (arith, l, length-append x.conn.sent_at ((read_clock setup.deadline x.clock).0 ∷ [])))
      (enqueue-Accounts depth setup x (omega (arith, l)) a)

settle-Accounts :
    (setup : Setup) (e : Ended) (y : Client)
    → EndedWell setup.pipeline e
    → settle setup e ≡ some y
    → Accounts setup.pipeline y
unfolding settle reopen open_conn
settle-Accounts setup (continues x) y a h = let same : x ≡ y = cc in rw same at a
settle-Accounts setup exited y a h = absurd (cc)
settle-Accounts setup (fails x) y a h =
    let afresh : Client = record x {
      conn = new_conn;
      stats = record x.stats {
        socket_errors = bump x.stats.socket_errors 1;
        reconnects = bump x.stats.reconnects 1;
      };
    } in
    let kept =
      fill_pipeline-Accounts setup.pipeline setup.pipeline setup afresh (omega arith)
        (record { in_flight = omega arith; counted = a.counted; offset = le_refl _ }) in
    let same : fill_pipeline setup.pipeline setup afresh ≡ y = cc in rw same at kept

-- An event of a connection is handled, whatever the sockets give and the server answers: `service`
-- returns, and unless the program exits for a response without a length, what is left of the
-- connection, opened again where `service` has returned false, has its accounts in order. No more
-- requests are in flight than the pipeline is deep, as many responses are counted as latencies noted,
-- modulo 2 ^ 64, and the offset of the output stays valid. It is assumed that the clock is read a
-- finite number of times before the deadline.
pub service-Accounts :
    (setup : Setup) (err : Bool) (receives : List Received) (sends : List Sent) (x : Client)
    → Accounts setup.pipeline x
    → (e : Ended) × (service setup err receives sends x ≡ some e)
      × ((y : Client) → settle setup e ≡ some y → Accounts setup.pipeline y)
service-Accounts setup err receives sends x a =
    let (e, ran, ended) = service-EndedWell setup.pipeline setup err receives sends x a in
    (e, ran, λ y h. settle-Accounts setup e y ended h)

-- The shares of the threads before `k`.
abbrev shares : (connections threads k : ℕ) → ℕ
shares connections threads zero = 0
shares connections threads (suc k) = shares connections threads k + share connections threads k

shares-min :
    (connections threads k : ℕ)
    → shares connections threads k ≡ k * (connections / threads) + min k (connections % threads)
unfolding share
shares-min connections threads zero = omega arith
shares-min connections threads (suc k) =
    let before = shares-min connections threads k in
    elim (Bool-cases (ltb k (connections % threads))) [
      | inl e ↦ rw e (let l = ltb→lt k (connections % threads) e in grind arith)
      | inr e ↦ rw e (let l = ltb→le k (connections % threads) e in grind arith)
    ]

-- The threads have all the connections among them.
shares_all :
    (connections threads : ℕ) → 0 < threads → shares connections threads threads ≡ connections
shares_all connections threads l = let all = shares-min connections threads threads in grind arith
