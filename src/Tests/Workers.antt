-- ===== src/Tests/Workers.antt =====
-- A worker and its loop, run at concrete inputs.
use http.Base.{ℕ, ◌↔◌, [], ◌∷◌, ◌≡◌, refl, Bool, true, false, some, codes, arith}
use http.Request.{default_limits}
use http.Metrics.{new_metrics}
use http.Server.{
  RecvResult, SendResult, received, recv_failed, would_block, room_for, Item, byte, Socket,
  Connection, new_connection, Worker, new_worker, Env, Turn,
}
use http.Server.Processing.{process}
use http.Server.Processing.Running.{process-Moves}
use http.Server.Steps.{IsSound, Moves}
use http.Server.Driving.{drive}
use http.Server.Driving.Turning.{Driven, drive-Driven}
use http.Server.Timers.{sweep}
use http.Server.Timers.Sweeping.{Holds, MayStay, sweep_iff}
use http.Server.Events.{AcceptResult, accepted, Event, acceptable, ready, on_event}
use http.Server.Events.Keeping.{IsKept}
use http.Server.Events.Reaching.{IsDelivered, Steps, here, handles, Steps-new_worker}
use http.Tests.Serving.{env, client, wire_end}

-- A request that the client sends in two pieces, and a kernel that takes what it is given.
abbrev asking : Socket
asking = record {
  recvs = received (codes "GET / HT") ∷ received (codes "TP/1.1\r\n\r\n") ∷ [];
  sends = room_for 1000 ∷ [];
  sendfiles = [];
  wire = [];
}

abbrev asker : Turn ℕ
asker = record {
  worker = new_worker 0;
  conn = new_connection asking default_limits 0;
  progress = false;
}

asker-IsSound : IsSound asker.conn
asker-IsSound = record {
  valid = record { ordered = omega arith; within = omega arith };
  fits = record { within = omega arith; drained = λ e. refl };
  kernel = (omega arith, (omega arith, tt));
}

process-Moves_example : (u : Turn ℕ) × (process env asker ≡ some u) × Moves asker u
process-Moves_example = process-Moves env asker asker-IsSound

drive-Driven_example : (r : Turn ℕ × Bool) × (drive env asker ≡ some r) × Driven asker r
drive-Driven_example = drive-Driven env asker asker-IsSound

-- A worker that has accepted a connection.
abbrev serving : Worker ℕ
serving = record (new_worker 0) {
  conns = (5, client) ∷ [];
  metrics = record new_metrics { connections_accepted = 1 };
}

accepts : on_event env (acceptable (accepted 5 wire_end true ∷ [])) (new_worker 0) ≡ some serving
unfolding on_event http.Server.Events.on_accept http.Server.Events.accept_loop
    http.Server.Events.put_conn http.Server.Timers.find_conn http.Metrics.bump
accepts = refl

is_new : IsDelivered env (new_worker 0) (acceptable (accepted 5 wire_end true ∷ []))
unfolding http.Server.Events.Reaching.AreNew http.Server.Timers.find_conn
is_new = (refl, (omega arith, (tt, (omega arith, tt))), tt)

abbrev readable_event : Event
readable_event = ready 5 true false (received (codes "x") ∷ []) [] []

Steps-new_worker_example :
    IsKept serving × ((v : Worker ℕ) × (on_event env readable_event serving ≡ some v) × IsKept v)
Steps-new_worker_example =
    Steps-new_worker env 0 serving readable_event
      (handles (acceptable (accepted 5 wire_end true ∷ [])) here is_new accepts) (omega arith, tt)

sweep_iff_example :
    Holds 5 client (sweep env serving).conns
    ↔ (Holds 5 client serving.conns × MayStay env serving client)
sweep_iff_example = sweep_iff env serving 5 client
