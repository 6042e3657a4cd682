-- ===== src/Server/Timers.antt =====
-- `Server::Worker::sweep`, `begin_drain` and `close_connection`.
pub mod Sweeping
use http.Base.{
  ℕ, ◌+◌, ◌%◌, ◌^◌, Bool, true, false, not, ◌&&◌, List, [], ◌∷◌, Option, none, some, ltb, ◌==◌,
  if◌then◌else◌,
}
use http.ByteBuffer.{is_drained}
use http.Parser.{started, headers_complete}
use http.Metrics.{WorkerMetrics, bump}
use http.Server.{Connection, Worker, Env, has_output, to_us}
use http.Server.Processing.{since}

-- Why a connection is closed by the sweep, or that it is not.
pub data Verdict : Type 0 where
  kept dropped timed_out : Verdict

unfoldable pub count_verdict : WorkerMetrics → Verdict → WorkerMetrics
unfolding bump
count_verdict m kept = m
count_verdict m dropped = record m { connections_closed = bump m.connections_closed 1 }
count_verdict m timed_out = record m {
  connections_closed = bump m.connections_closed 1;
  connections_timed_out = bump m.connections_timed_out 1;
}

module _ {ℓ} {P : Type ℓ} where
  unfoldable pub is_idle : Connection P → Bool
  is_idle c = not (has_output c) && is_drained c.input && not (started c.parser)

  -- The tests of the loop on one connection.
  unfoldable pub judge : Env P → Worker P → Connection P → Verdict
  unfolding is_idle
  judge env w c =
      if w.draining && is_idle c
      then dropped
      else if not (c.request_start_us == 0)
          && not (headers_complete c.parser)
          && ltb (to_us env.cfg.header_timeout) (since w.now_us c.request_start_us)
      then timed_out
      else if ltb (to_us env.cfg.idle_timeout) (since w.now_us c.last_active_us)
      then timed_out
      else kept

  -- The loop over the connections: those that stay, and the counters.
  unfoldable pub sweep_loop :
      Env P
      → Worker P
      → List (ℕ × Connection P)
      → WorkerMetrics
      → List (ℕ × Connection P) × WorkerMetrics
  unfolding judge count_verdict
  sweep_loop env w [] m = ([], m)
  sweep_loop env w ((fd, c) ∷ cs) m =
      let verdict = judge env w c in
      let (stay, m') = sweep_loop env w cs (count_verdict m verdict) in
      (elim verdict [ kept ↦ (fd, c) ∷ stay | _ ↦ stay ], m')

  unfoldable pub sweep : Env P → Worker P → Worker P
  unfolding sweep_loop
  sweep env w =
      let (stay, m) = sweep_loop env w w.conns w.metrics in record w { conns = stay; metrics = m }

  unfoldable pub begin_drain : Env P → Worker P → Worker P
  begin_drain env w = if w.draining then w else record w {
    draining = true;
    drain_deadline_us = (w.now_us + to_us env.cfg.shutdown_grace) % 2 ^ 64;
    listening = false;
  }

  -- `conns_.find(fd)`.
  unfoldable pub find_conn : List (ℕ × Connection P) → ℕ → Option (Connection P)
  find_conn [] fd = none
  find_conn ((key, c) ∷ cs) fd = if key == fd then some c else find_conn cs fd

  -- `conns_.erase(fd)`.
  unfoldable pub erase_conn : List (ℕ × Connection P) → ℕ → List (ℕ × Connection P)
  erase_conn [] fd = []
  erase_conn ((key, c) ∷ cs) fd = if key == fd then cs else (key, c) ∷ erase_conn cs fd

  unfoldable pub close_connection : Worker P → ℕ → Worker P
  unfolding find_conn erase_conn bump
  close_connection w fd = elim (find_conn w.conns fd) [
    | none ↦ w
    | some c ↦ record w {
      conns = erase_conn w.conns fd;
      metrics = record w.metrics { connections_closed = bump w.metrics.connections_closed 1 };
    }
  ]
