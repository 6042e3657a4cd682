-- ===== src/Server/Reading.antt =====
-- `Server::Worker::do_read`.
pub mod Absorbed
use http.Base.{
  ℕ, ◌+◌, ◌-◌, Bool, true, false, List, [], ◌∷◌, Option, none, some, Bytes, ltb, ◌==◌,
  if◌then◌else◌, length,
}
use http.Ascii.{is_empty}
use http.ByteBuffer.{ByteBuffer, size, prepare, receive}
use http.Metrics.{WorkerMetrics, bump}
use http.Server.{
  Errno, interrupted, would_block, other_error, RecvResult, received, recv_failed, Socket,
  Connection, Worker, Turn, read_size,
}

module _ {ℓ} {P : Type ℓ} where
  -- The answer of a call has been taken, and the buffer been prepared for it.
  abbrev pub recv_taken : Turn P → List RecvResult → Turn P
  recv_taken t rest = record t {
    conn = record t.conn {
      socket = record t.conn.socket { recvs = rest };
      input = prepare t.conn.input read_size;
    };
  }

  -- `n > 0`.
  abbrev pub on_received : Turn P → List RecvResult → Bytes → Turn P
  on_received t rest s = record t {
    worker = record t.worker {
      metrics = record t.worker.metrics {
        bytes_received = bump t.worker.metrics.bytes_received (length s);
      };
    };
    conn = record t.conn {
      socket = record t.conn.socket { recvs = rest };
      input = receive t.conn.input read_size s;
      last_active_us = t.worker.now_us;
    };
    progress = true;
  }

  -- The loop, over the answers of `recv`. It returns the flag `false` where the connection is broken.
  unfoldable pub read_loop : ℕ → List RecvResult → Turn P → Turn P × Bool
  unfolding prepare receive bump
  read_loop room [] t =
      if ltb (size t.conn.input) room
      then (
        record (recv_taken t []) { conn = record (recv_taken t []).conn { can_read = false } },
        true,
      )
      else (t, true)
  read_loop room (r ∷ rest) t = elim (ltb (size t.conn.input) room) [
    | false ↦ (t, true)
    | true ↦ elim r [
      | received s ↦ elim (is_empty s) [
        | false ↦ read_loop room rest (on_received t rest s)
        | true ↦ (
          record (recv_taken t rest) {
            conn = record (recv_taken t rest).conn { peer_closed = true };
            progress = true;
          },
          true,
        )
      ]
      | recv_failed e ↦ elim e [
        | interrupted ↦ read_loop room rest (recv_taken t rest)
        | would_block ↦ (
          record (recv_taken t rest) {
            conn = record (recv_taken t rest).conn { can_read = false };
          },
          true,
        )
        | other_error ↦ (recv_taken t rest, false)
      ]
    ]
  ]

  -- `max_in_buffer_` is the first argument.
  unfoldable pub do_read : ℕ → Turn P → Turn P × Bool
  unfolding read_loop
  do_read room t = read_loop room t.conn.socket.recvs t
