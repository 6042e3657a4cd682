-- ===== src/Server/Writing.antt =====
-- `Server::Worker::do_write`: one round of its loop, and the loop.
pub mod Items
pub mod Sending
pub mod Flow
pub mod Beside
pub mod Measure
pub mod Halting
use http.Base.{
  ℕ, zero, suc, ◌+◌, ◌-◌, ◌*◌, ◌/◌, ◌%◌, ◌^◌, Bool, true, false, List, [], ◌∷◌, ◌++◌, Option, none,
  some, Bytes, ltb, ◌==◌, if◌then◌else◌, length, take, drop, min, map,
}
use http.Metrics.{WorkerMetrics, bump}
use http.Server.{
  Errno, interrupted, would_block, other_error, SendResult, room_for, send_failed, Item, byte,
  file_byte, Socket, Connection, Worker, Turn, Env, out_pending, is_some, sendfile_max,
}
use http.Server.Producing.{refill_from_producer}

-- What a round does: it returns with that flag, it leaves the loop, or it goes on.
pub data WriteRound {ℓ} (P : Type ℓ) : Type ℓ where
  fails : Turn P → WriteRound P
  stops : Turn P → WriteRound P
  goes_on : Turn P → WriteRound P

abbrev pub as_items : Bytes → List Item
as_items s = map byte s

-- The bytes of a file from an offset on.
abbrev pub file_items : ℕ → ℕ → ℕ → List Item
file_items fd off zero = []
file_items fd off (suc n) = file_byte fd off ∷ file_items fd (off + 1) n

-- The next answer of a call; where there is none the call would block.
abbrev pub next_answer : List SendResult → SendResult × List SendResult
next_answer [] = (send_failed would_block, [])
next_answer (r ∷ rest) = (r, rest)

module _ {ℓ} {P : Type ℓ} where
  abbrev pub block_writes : Turn P → Turn P
  block_writes t = record t { conn = record t.conn { can_write = false } }

  -- What a failed call leads to.
  abbrev pub on_failed : Turn P → Errno → WriteRound P
  on_failed t interrupted = goes_on t
  on_failed t would_block = stops (block_writes t)
  on_failed t other_error = fails t

  abbrev pub send_taken : Turn P → List SendResult → Turn P
  send_taken t rest = record t {
    conn = record t.conn { socket = record t.conn.socket { sends = rest } };
  }

  abbrev pub sendfile_taken : Turn P → List SendResult → Turn P
  sendfile_taken t rest = record t {
    conn = record t.conn { socket = record t.conn.socket { sendfiles = rest } };
  }

  -- The bytes of `out` that have been sent are dropped, when they are all or more than half.
  unfoldable pub compact : Connection P → Connection P
  compact c =
      if c.out_off == length c.out
      then record c { out = []; out_off = 0 }
      else if ltb (length c.out / 2) c.out_off
      then record c { out = drop c.out_off c.out; out_off = 0 }
      else c

  -- `send` has taken so many bytes.
  unfoldable pub on_sent : Turn P → ℕ → Turn P
  on_sent t sent =
      let c = t.conn in
      record t {
        worker = record t.worker {
          metrics = record t.worker.metrics { bytes_sent = bump t.worker.metrics.bytes_sent sent };
        };
        conn = compact (record c {
          socket = record c.socket {
            wire = c.socket.wire ++ as_items (take sent (drop c.out_off c.out));
          };
          out_off = c.out_off + sent;
          last_active_us = t.worker.now_us;
        });
        progress = true;
      }

  -- What `send` has returned.
  unfoldable pub on_send_answer : Turn P → SendResult → WriteRound P
  on_send_answer t (send_failed e) = on_failed t e
  on_send_answer t (room_for k) =
      let want = out_pending t.conn in
      let sent = min k want in
      if ltb sent want then stops (block_writes (on_sent t sent)) else goes_on (on_sent t sent)

  -- A round where something of `out` is pending.
  unfoldable pub send_round : Turn P → WriteRound P
  send_round t =
      let next = next_answer t.conn.socket.sends in on_send_answer (send_taken t next.1) next.0

  -- `sendfile` has taken so many bytes of the file.
  unfoldable pub on_sent_file : Turn P → ℕ → ℕ → Turn P
  on_sent_file t fd sent =
      let c = t.conn in
      record t {
        worker = record t.worker {
          metrics = record t.worker.metrics {
            bytes_sent = bump t.worker.metrics.bytes_sent sent;
            bytes_sendfile = bump t.worker.metrics.bytes_sendfile sent;
          };
        };
        conn = record c {
          socket = record c.socket { wire = c.socket.wire ++ file_items fd c.file_off sent };
          file_off = c.file_off + sent;
          file_left = c.file_left - sent;
          last_active_us = t.worker.now_us;
        };
        progress = true;
      }

  -- The file is closed once all of it has been sent.
  unfoldable pub after_file : Turn P → Bool → WriteRound P
  after_file t short =
      if t.conn.file_left == 0
      then goes_on (record t { conn = record t.conn { file = none } })
      else if short
      then stops (block_writes t)
      else goes_on t

  -- What `sendfile` has returned.
  unfoldable pub on_file_answer : Turn P → ℕ → SendResult → WriteRound P
  on_file_answer t fd (send_failed e) = on_failed t e
  on_file_answer t fd (room_for k) =
      let want = min t.conn.file_left sendfile_max in
      let sent = min k want in
      if sent == 0 then fails t else after_file (on_sent_file t fd sent) (ltb sent want)

  -- A round on an open file.
  unfoldable pub sendfile_round : Turn P → ℕ → WriteRound P
  sendfile_round t fd =
      let next = next_answer t.conn.socket.sendfiles in
      on_file_answer (sendfile_taken t next.1) fd next.0

  -- What the refill has given.
  abbrev pub on_refilled : Turn P → Option (Connection P) → WriteRound P
  on_refilled t none = fails t
  on_refilled t (some c) = goes_on (record t { conn = c; progress = true })

  -- A round on a body producer.
  unfoldable pub produce_round : Env P → Turn P → WriteRound P
  produce_round env t = on_refilled t (refill_from_producer env.pull t.conn)

  -- A round on the body, once `out` has been sent.
  unfoldable pub body_round : Env P → Turn P → Option ℕ → Option P → WriteRound P
  body_round env t (some fd) producer = sendfile_round t fd
  body_round env t none (some p) = produce_round env t
  body_round env t none none = stops t

  -- A round of the loop: `out` first, then the file, then the producer.
  unfoldable pub write_round : Env P → Turn P → WriteRound P
  write_round env t =
      if ltb 0 (out_pending t.conn)
      then send_round t
      else body_round env t t.conn.file t.conn.producer

  -- The loop goes on, or not.
  abbrev pub after_round : WriteRound P → (Turn P → Option (Turn P × Bool)) → Option (Turn P × Bool)
  after_round (fails t) following = some (t, false)
  after_round (stops t) following = some (t, true)
  after_round (goes_on t) following = following t

  -- The loop on fuel; `none` means that the fuel ran out.
  unfoldable pub write_loop : Env P → ℕ → Turn P → Option (Turn P × Bool)
  write_loop env zero t = none
  write_loop env (suc fuel) t = elim t.conn.can_write [
    | false ↦ some (t, true)
    | true ↦ after_round (write_round env t) (write_loop env fuel)
  ]

  -- Each round takes an answer of the kernel, or it gets bytes or the end from the producer.
  abbrev pub write_fuel : Turn P → ℕ
  write_fuel t = 2 * (length t.conn.socket.sends + length t.conn.socket.sendfiles) + 3

  unfoldable pub do_write : Env P → Turn P → Option (Turn P × Bool)
  do_write env t = write_loop env (write_fuel t) t
