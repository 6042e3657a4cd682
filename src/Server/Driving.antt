-- ===== src/Server/Driving.antt =====
-- `Server::Worker::drive`.
pub mod Reading
pub mod Turning
use http.Base.{
  ℕ, zero, suc, Bool, true, false, not, ◌&&◌, Option, none, some, ltb, if◌then◌else◌, ◌+◌, ◌*◌,
  length,
}
use http.ByteBuffer.{size}
use http.Server.{Connection, Turn, Env, has_output, max_in_buffer}
use http.Server.Steps.{recv_work}
use http.Server.Reading.{do_read}
use http.Server.Writing.{do_write}
use http.Server.Processing.{process}

module _ {ℓ} {P : Type ℓ} where
  -- The condition of the call of `do_read`.
  abbrev pub may_read : Env P → Connection P → Bool
  may_read env c =
      c.can_read
      && not c.peer_closed
      && not c.close_after_write
      && ltb (size c.input) (max_in_buffer env)

  abbrev pub may_write : Connection P → Bool
  may_write c = c.can_write && has_output c

  -- A turn that begins: no progress has been made.
  abbrev pub fresh_turn : Turn P → Turn P
  fresh_turn t = record t { progress = false }

  -- The three parts of a round. The flag is `false` where the source returns false.
  unfoldable pub read_part : Env P → Turn P → Turn P × Bool
  unfolding do_read
  read_part env t = if may_read env t.conn then do_read (max_in_buffer env) t else (t, true)

  unfoldable pub write_part : Env P → Turn P → Option (Turn P × Bool)
  unfolding do_write
  write_part env t = if may_write t.conn then do_write env t else some (t, true)

  abbrev pub then_write : Env P → Option (Turn P) → Option (Turn P × Bool)
  then_write env none = none
  then_write env (some v) = write_part env v

  abbrev pub then_process : Env P → Turn P × Bool → Option (Turn P × Bool)
  then_process env (u, false) = some (u, false)
  then_process env (u, true) = then_write env (process env u)

  unfoldable pub drive_round : Env P → Turn P → Option (Turn P × Bool)
  unfolding read_part process write_part
  drive_round env t = then_process env (read_part env (fresh_turn t))

  -- The loop goes on while there is progress.
  abbrev pub if_progress :
      Option (Turn P × Bool) → (Turn P → Option (Turn P × Bool)) → Option (Turn P × Bool)
  if_progress none following = none
  if_progress (some (u, false)) following = some (u, false)
  if_progress (some (u, true)) following = elim u.progress [
    | false ↦ some (u, true)
    | true ↦ following u
  ]

  -- The loop, on fuel; `none` means that the fuel ran out. It returns the flag `true` where the loop
  -- was left by its end.
  unfoldable pub drive_loop : Env P → ℕ → Turn P → Option (Turn P × Bool)
  unfolding drive_round
  drive_loop env zero t = none
  drive_loop env (suc fuel) t = if_progress (drive_round env t) (drive_loop env fuel)

  -- What is returned behind the loop. A connection that is closed after its output is shut down and
  -- what the client still sends is discarded.
  unfoldable pub after_loop : Connection P → Bool
  after_loop c =
      if has_output c then true else if c.close_after_write then false else not c.peer_closed

  abbrev pub finish : Option (Turn P × Bool) → Option (Turn P × Bool)
  finish none = none
  finish (some (u, ok)) = some (u, ok && after_loop u.conn)

  -- Each round with progress uses up an answer of the kernel or input, and 9 stands for the rest of
  -- what may be left of a request and of a body.
  abbrev pub drive_fuel : Connection P → ℕ
  drive_fuel c =
      5 * (size c.input + recv_work c.socket.recvs)
      + (2 * (length c.socket.sends + length c.socket.sendfiles) + 9)

  -- The flag is `false` where the connection must be closed.
  unfoldable pub drive : Env P → Turn P → Option (Turn P × Bool)
  unfolding drive_loop after_loop
  drive env t = finish (drive_loop env (drive_fuel t.conn) t)
