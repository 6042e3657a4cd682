-- ===== src/Server/Events.antt =====
-- The event loop: `on_accept` and `run` of `Server::Worker`.
pub mod Keeping
pub mod Reaching
use http.Base.{
  ℕ, zero, suc, ◌+◌, Bool, true, false, ◌&&◌, ◌||◌, List, [], ◌∷◌, Option, none, some, leb, ◌==◌,
  if◌then◌else◌, length,
}
use http.Metrics.{bump}
use http.Server.{
  Errno, interrupted, would_block, other_error, RecvResult, SendResult, Socket, Connection,
  new_connection, Worker, Turn, Env, accept_batch, tick_us,
}
use http.Server.Timers.{sweep, begin_drain, find_conn, close_connection}
use http.Server.Processing.{since}
use http.Server.Driving.{drive}

-- What `accept4` returns: a descriptor with its socket, and whether `epoll_ctl` then takes it, or an
-- error. An aborted connection is told apart as `interrupted`.
pub data AcceptResult : Type 0 where
  accepted : ℕ → Socket → Bool → AcceptResult
  accept_failed : Errno → AcceptResult

-- An event of `epoll_wait`: the eventfd, the listener with the answers of `accept4`, or a connection
-- with its readiness and the answers of the calls on its socket.
pub data Event : Type 0 where
  woken : Event
  acceptable : List AcceptResult → Event
  ready : ℕ → Bool → Bool → List RecvResult → List SendResult → List SendResult → Event

module _ {ℓ} {P : Type ℓ} where
  -- `conns_.emplace(fd, conn)` leaves a connection that is there.
  unfoldable pub put_conn : Worker P → ℕ → Connection P → Worker P
  unfolding find_conn
  put_conn w fd c = elim (find_conn w.conns fd) [
    | some d ↦ w
    | none ↦ record w { conns = (fd, c) ∷ w.conns }
  ]

  abbrev pub count_accept_error : Worker P → Worker P
  count_accept_error w = record w {
    metrics = record w.metrics { accept_errors = bump w.metrics.accept_errors 1 };
  }

  -- The loop of `on_accept`, over the rounds that are left and the answers of `accept4`.
  unfoldable pub accept_loop : Env P → ℕ → List AcceptResult → Worker P → Worker P
  unfolding put_conn bump
  accept_loop env zero answers w = w
  accept_loop env (suc n) [] w = w
  accept_loop env (suc n) (accept_failed interrupted ∷ answers) w = accept_loop env n answers w
  accept_loop env (suc n) (accept_failed would_block ∷ answers) w = w
  accept_loop env (suc n) (accept_failed other_error ∷ answers) w = count_accept_error w
  accept_loop env (suc n) (accepted fd socket false ∷ answers) w =
      accept_loop env n answers (count_accept_error w)
  accept_loop env (suc n) (accepted fd socket true ∷ answers) w =
      let counted = record w {
        metrics = record w.metrics { connections_accepted = bump w.metrics.connections_accepted 1 };
      } in
      accept_loop env n answers
        (put_conn counted fd (new_connection socket env.cfg.limits w.now_us))

  unfoldable pub on_accept : Env P → List AcceptResult → Worker P → Worker P
  unfolding accept_loop
  on_accept env answers w = accept_loop env accept_batch answers w

  -- `*it->second = c`, at the first connection of that descriptor.
  unfoldable pub store_conn : List (ℕ × Connection P) → ℕ → Connection P → List (ℕ × Connection P)
  store_conn [] fd c = []
  store_conn ((key, d) ∷ cs) fd c =
      if key == fd then (key, c) ∷ cs else (key, d) ∷ store_conn cs fd c

  -- A connection is ready, and the kernel has new answers for it.
  abbrev pub make_ready :
      Connection P
      → Bool
      → Bool
      → List RecvResult
      → List SendResult
      → List SendResult
      → Connection P
  make_ready c readable writable recvs sends sendfiles = record c {
    socket = record c.socket { recvs = recvs; sends = sends; sendfiles = sendfiles };
    can_read = c.can_read || readable;
    can_write = c.can_write || writable;
  }

  -- A connection that has been driven is stored, or closed.
  unfoldable pub after_drive : ℕ → Option (Turn P × Bool) → Option (Worker P)
  unfolding store_conn close_connection
  after_drive fd none = none
  after_drive fd (some (u, alive)) =
      let stored = record u.worker { conns = store_conn u.worker.conns fd u.conn } in
      some (if alive then stored else close_connection stored fd)

  -- An event of the connection of that descriptor, if there is one.
  unfoldable pub on_ready :
      Env P
      → Worker P
      → ℕ
      → Option (Connection P)
      → (Connection P → Connection P)
      → Option (Worker P)
  unfolding drive after_drive
  on_ready env w fd none readied = some w
  on_ready env w fd (some c) readied =
      after_drive fd (drive env (record { worker = w; conn = readied c; progress = false }))

  -- One event of a batch; `none` means that the fuel of `drive` ran out.
  unfoldable pub on_event : Env P → Event → Worker P → Option (Worker P)
  unfolding begin_drain on_accept find_conn on_ready
  on_event env woken w = some (begin_drain env w)
  on_event env (acceptable answers) w =
      if w.listening then some (on_accept env answers w) else some w
  on_event env (ready fd readable writable recvs sends sendfiles) w =
      on_ready env w fd (find_conn w.conns fd)
        λ c. make_ready c readable writable recvs sends sendfiles

  unfoldable pub on_events : Env P → List Event → Worker P → Option (Worker P)
  unfolding on_event
  on_events env [] w = some w
  on_events env (e ∷ es) w = elim (on_event env e w) [ none ↦ none | some v ↦ on_events env es v ]

  -- The clock has been read and the batch been counted.
  abbrev pub wake_up : Env P → ℕ → Worker P → Worker P
  wake_up env n w = record w {
    now_us = env.mono_us w.readings;
    readings = w.readings + 1;
    metrics = record w.metrics {
      loop_wakeups = bump w.metrics.loop_wakeups 1;
      loop_events = bump w.metrics.loop_events n;
    };
  }

  -- The end of a round: the sweep, if it is due, with the time of the last one.
  unfoldable pub sweep_if_due : Env P → Worker P → ℕ → Worker P × ℕ
  unfolding sweep
  sweep_if_due env w last_sweep =
      if w.draining || leb (tick_us env.cfg) (since w.now_us last_sweep)
      then (sweep env w, w.now_us)
      else (w, last_sweep)

  -- The loop is left.
  unfoldable pub is_over : Worker P → Bool
  is_over w =
      w.draining && (elim w.conns [ [] ↦ true | _ ↦ false ] || leb w.drain_deadline_us w.now_us)

  -- A round of `run` on a batch of events: the worker, the time of the last sweep, and whether the
  -- loop is left.
  unfoldable pub run_round : Env P → List Event → Worker P → ℕ → Option (Worker P × ℕ × Bool)
  unfolding on_events sweep_if_due is_over
  run_round env events w last_sweep = elim (on_events env events (wake_up env (length events) w)) [
    | none ↦ none
    | some v ↦ let (x, swept) = sweep_if_due env v last_sweep in some (x, swept, is_over x)
  ]

  -- `while (!conns_.empty()) close_connection(conns_.begin()->first)`.
  unfoldable pub close_all : List (ℕ × Connection P) → Worker P → Worker P
  unfolding close_connection
  close_all [] w = w
  close_all ((fd, c) ∷ cs) w = close_all cs (close_connection w fd)
