-- ===== src/Tests/Serving.antt =====
-- A connection of a worker, run at concrete inputs.
use http.Base.{
  ℕ, zero, suc, List, [], ◌∷◌, ◌≡◌, refl, Bool, true, false, Option, none, some, codes, arith,
}
use http.Headers.{Headers}
use http.Request.{default_limits}
use http.ByteBuffer.Prepare.{IsValid}
use http.Server.{
  would_block, received, recv_failed, room_for, send_failed, Item, byte, Socket, Connection,
  new_connection, Worker, new_worker, Env, Turn, Pulled, pulled, producer_low_water, read_size,
}
use http.Server.Producing.{refill_from_producer}
use http.Server.Producing.Declared.{KeepsLength, refill_from_producer-KeepsLength}
use http.Server.Reading.{do_read}
use http.Server.Reading.Absorbed.{Absorbed, AllFit, do_read-Absorbed}
use http.Server.Writing.{do_write}
use http.Server.Writing.Items.{HasOutput, Carries}
use http.Server.Writing.Halting.{do_write-Carries}

-- A producer counts down.
abbrev count_down : ℕ → Headers → Pulled ℕ
count_down zero fs = pulled (codes "end") fs false 0
count_down (suc n) fs = pulled (codes "go ") fs true n

abbrev pub env : Env ℕ
env = record {
  cfg = record {
    idle_timeout = 30000;
    header_timeout = 10000;
    shutdown_grace = 5000;
    limits = default_limits;
  };
  routes = [];
  pull = count_down;
  format_date = λ t. codes "Thu";
  wall = λ i. 7;
  mono_us = λ i. i;
}

-- The client sends in two pieces, and the kernel takes 3 bytes, then 100.
abbrev pub wire_end : Socket
wire_end = record {
  recvs = received (codes "GE") ∷ recv_failed would_block ∷ received (codes "T") ∷ [];
  sends = room_for 3 ∷ [];
  sendfiles = [];
  wire = [];
}

abbrev pub client : Connection ℕ
client = new_connection wire_end default_limits 0

abbrev reader : Turn ℕ
reader = record { worker = new_worker 0; conn = client; progress = false }

-- A stream of two pieces, once `out` has been sent.
abbrev streaming : Turn ℕ
streaming = record reader {
  conn = record client {
    socket = record wire_end { sends = room_for 100 ∷ room_for 4 ∷ [] };
    out = codes "ok";
    producer = some 1;
  };
}

sent : Option (Turn ℕ × Bool) → List Item
sent none = []
sent (some r) = r.0.conn.socket.wire

-- What was pending goes first, then as much of the stream as the kernel takes.
streams :
    sent (do_write env streaming)
    ≡ byte 111 ∷ byte 107 ∷ byte 103 ∷ byte 111 ∷ byte 32 ∷ byte 101 ∷ []
unfolding sent do_write http.Server.Writing.write_loop http.Server.Writing.write_round
    http.Server.Writing.send_round http.Server.Writing.on_send_answer http.Server.Writing.on_sent
    http.Server.Writing.compact http.Server.Writing.body_round http.Server.Writing.produce_round
    http.Server.Producing.refill_from_producer http.Server.Producing.refill_loop
    http.Server.Producing.pull_round http.Server.Producing.on_pulled
    http.Server.Producing.take_piece http.Server.Producing.end_body
streams = refl

client-IsValid : IsValid client.input
client-IsValid = record { ordered = omega arith; within = omega arith }

client_fits : AllFit client.socket.recvs
client_fits = (omega arith, (tt, (omega arith, tt)))

do_read-Absorbed_example : Absorbed 65536 reader (do_read 65536 reader)
do_read-Absorbed_example = do_read-Absorbed 65536 reader client-IsValid client_fits (omega arith)

streaming-HasOutput : HasOutput streaming.conn
streaming-HasOutput = record { within = omega arith; drained = λ e. absurd (omega (arith, e)) }

do_write-Carries_example :
    (r : Turn ℕ × Bool) × (do_write env streaming ≡ some r) × Carries streaming.conn r.0.conn
do_write-Carries_example = do_write-Carries env streaming streaming-HasOutput

-- A stream of a declared length of 6 bytes.
abbrev sized : Connection ℕ
sized = record client { producer = some 1; stream_sized = true; stream_left = 6 }

-- The whole stream, of which nothing is left.
abbrev streamed : Connection ℕ
streamed = record sized { out = codes "go end"; producer = none; stream_left = 0 }

sized_refill : refill_from_producer count_down sized ≡ some streamed
unfolding refill_from_producer http.Server.Producing.refill_loop http.Server.Producing.pull_round
    http.Server.Producing.on_pulled http.Server.Producing.take_piece http.Server.Producing.end_body
sized_refill = refl

refill_from_producer-KeepsLength_example : KeepsLength sized streamed
refill_from_producer-KeepsLength_example =
    refill_from_producer-KeepsLength count_down sized streamed
      (record { sized = refl; plain = refl }) (λ n. cc) sized_refill
