-- ===== src/Loadgen/Sockets.antt =====
-- tools/loadgen.cpp: the sockets of a connection, from what the system calls return: `service`, `open`
-- and `reopen`, and what the threads make of the connections and counters.
use http.Base.{
  ℕ, zero, suc, ◌+◌, ◌-◌, ◌/◌, ◌%◌, ◌^◌, Bool, true, false, not, List, [], ◌∷◌, ◌++◌, Option, none,
  some, Bytes, ltb, ◌==◌, if◌then◌else◌, length, min,
}
use http.Metrics.{bump}
use http.Loadgen.{
  Client, Conn, Ended, Setup, ThreadStats, consume_responses, enqueue, new_conn, continues, fails,
  exited,
}

-- What `recv` returns; the bytes are not empty.
pub data Received : Type 0 where
  received : ℕ → Bytes → Received
  recv_closed recv_blocks recv_interrupted recv_fails : Received

abbrev pub append_input : Client → Bytes → Client
append_input x s = record x {
  conn = record x.conn { input = x.conn.input ++ s };
  stats = record x.stats { bytes = (x.stats.bytes + length s) % 2 ^ 64 };
}

-- The first loop of `service`. Where no answer is left `recv` would block.
unfoldable pub recv_loop : List Received → Client → Client × Bool
recv_loop [] x = (x, true)
recv_loop (received c s ∷ answers) x = recv_loop answers (append_input x (c ∷ s))
recv_loop (recv_closed ∷ answers) x = (x, false)
recv_loop (recv_blocks ∷ answers) x = (x, true)
recv_loop (recv_interrupted ∷ answers) x = recv_loop answers x
recv_loop (recv_fails ∷ answers) x = (x, false)

-- What `send` returns; it takes no more than it is given.
pub data Sent : Type 0 where
  sent : ℕ → Sent
  send_blocks send_interrupted send_fails : Sent

-- What is done with an answer, and with the loop that may go on.
abbrev pub on_answer : (Conn → Conn × Bool) → Conn → Sent → Conn × Bool
on_answer sending c (sent zero) = (c, false)
on_answer sending c (sent (suc n)) =
    sending (record c { out_off = c.out_off + min (suc n) (length c.out - c.out_off) })
on_answer sending c send_blocks = (c, true)
on_answer sending c send_interrupted = sending c
on_answer sending c send_fails = (c, false)

-- The second loop.
unfoldable pub send_loop : List Sent → Conn → Conn × Bool
send_loop [] c = (c, true)
send_loop (a ∷ answers) c =
    let sending = send_loop answers in
    if not (ltb c.out_off (length c.out)) then (c, true) else on_answer sending c a

-- `if (c.out_off == c.out.size())`.
abbrev pub clear_sent : Conn → Conn
clear_sent c = if c.out_off == length c.out then record c { out = []; out_off = 0 } else c

abbrev pub after_send : Client → Conn × Bool → Ended
after_send x (c, true) = continues (record x { conn = clear_sent c })
after_send x (c, false) = fails (record x { conn = c })

abbrev pub after_consume : List Sent → Option Ended → Option Ended
after_consume sends none = none
after_consume sends (some (continues y)) = some (after_send y (send_loop sends y.conn))
after_consume sends (some (fails y)) = some (fails y)
after_consume sends (some exited) = some exited

abbrev pub after_recv : Setup → List Sent → Client × Bool → Option Ended
after_recv setup sends (y, true) = after_consume sends (consume_responses setup y)
after_recv setup sends (y, false) = some (fails y)

-- `service`, from the answers of `recv` and `send`; the flag is that of EPOLLERR.
unfoldable pub service : Setup → Bool → List Received → List Sent → Client → Option Ended
unfolding recv_loop consume_responses send_loop
service setup err receives sends x =
    if err then some (fails x) else after_recv setup sends (recv_loop receives x)

-- The last loop of `open`.
unfoldable pub fill_pipeline : ℕ → Setup → Client → Client
unfolding enqueue
fill_pipeline zero setup x = x
fill_pipeline (suc n) setup x = fill_pipeline n setup (enqueue setup x)

-- `open`, as far as it changes the connection.
unfoldable pub open_conn : Setup → Client → Client
unfolding fill_pipeline
open_conn setup x = fill_pipeline setup.pipeline setup (record x { conn = new_conn })

unfoldable pub reopen : Setup → Client → Client
unfolding open_conn bump
reopen setup x =
    open_conn setup (record x { stats = record x.stats { reconnects = bump x.stats.reconnects 1 } })

-- What `run` does with the end of `service`; `none` is the exit of the program.
unfoldable pub settle : Setup → Ended → Option Client
unfolding reopen bump
settle setup exited = none
settle setup (continues x) = some x
settle setup (fails x) = some (
    reopen setup
      (record x { stats = record x.stats { socket_errors = bump x.stats.socket_errors 1 } }))

-- How many of the connections a thread has, and its counters added to those of the others.
unfoldable pub share : (connections threads t : ℕ) → ℕ
share connections threads t =
    connections / threads + (if ltb t (connections % threads) then 1 else 0)

unfoldable pub add_stats : ThreadStats → ThreadStats → ThreadStats
unfolding bump
add_stats all w = record {
  requests = bump all.requests w.requests;
  non_2xx = bump all.non_2xx w.non_2xx;
  socket_errors = bump all.socket_errors w.socket_errors;
  reconnects = bump all.reconnects w.reconnects;
  bytes = bump all.bytes w.bytes;
  latencies_ns = all.latencies_ns ++ w.latencies_ns;
}
