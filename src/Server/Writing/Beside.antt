-- ===== src/Server/Writing/Beside.antt =====
-- What `do_write` leaves alone: the input and the parser, what `recv` gives, and all of the worker but
-- its counters of bytes.
use http.Base.{
  ℕ, zero, suc, ◌/◌, ◌≡◌, refl, ◌∙◌, ap, subst, Bool, true, false, List, Option, none, some, ltb,
  ◌==◌, if_both, length, min,
}
use http.Server.{
  Errno, interrupted, would_block, other_error, SendResult, room_for, send_failed, Connection, Turn,
  Env, out_pending, sendfile_max,
}
use http.Server.Producing.{refill_from_producer}
use http.Server.Producing.Appending.{beside, Extends, refill_from_producer-Extends}
use http.Server.Sharing.{SameWorker, SameWorker-refl, SameWorker-trans}
use http.Server.Writing.{
  WriteRound, fails, stops, goes_on, next_answer, block_writes, on_failed, send_taken,
  sendfile_taken, compact, on_sent, on_send_answer, send_round, on_sent_file, after_file,
  on_file_answer, sendfile_round, on_refilled, produce_round, body_round, write_round, after_round,
  write_loop, do_write, write_fuel,
}

module _ {ℓ} {P : Type ℓ} where
  -- The second connection differs from the first in its output only, and in that it may be closed.
  pub record Aside (c d : Connection P) : Type ℓ where
    pub same_beside : beside d ≡ beside c
    pub same_recvs : d.socket.recvs ≡ c.socket.recvs
    pub closing : c.close_after_write ≡ true → d.close_after_write ≡ true

  pub record Leaves (t u : Turn P) : Type ℓ where
    pub conn : Aside t.conn u.conn
    pub worker : SameWorker t.worker u.worker

  Leaves-trans : {t u v : Turn P} → Leaves t u → Leaves u v → Leaves t v
  Leaves-trans a b = record {
    conn = record {
      same_beside = b.conn.same_beside ∙ a.conn.same_beside;
      same_recvs = b.conn.same_recvs ∙ a.conn.same_recvs;
      closing = λ h. b.conn.closing (a.conn.closing h);
    };
    worker = SameWorker-trans a.worker b.worker;
  }

  Aside-refl : (c : Connection P) → Aside c c
  Aside-refl c = record { same_beside = refl; same_recvs = refl; closing = λ h. h }

  abbrev LeavesRound : Turn P → WriteRound P → Type ℓ
  LeavesRound t (fails u) = Leaves t u
  LeavesRound t (stops u) = Leaves t u
  LeavesRound t (goes_on u) = Leaves t u

  blocked : (t u : Turn P) → Leaves t u → Leaves t (block_writes u)
  blocked t u h = record {
    conn = record {
      same_beside = h.conn.same_beside;
      same_recvs = h.conn.same_recvs;
      closing = h.conn.closing;
    };
    worker = h.worker;
  }

  on_failed-Leaves : (t u : Turn P) (e : Errno) → Leaves t u → LeavesRound t (on_failed u e)
  on_failed-Leaves t u interrupted h = h
  on_failed-Leaves t u would_block h = blocked t u h
  on_failed-Leaves t u other_error h = h

  compact-Aside : (c d : Connection P) → Aside c d → Aside c (compact d)
  unfolding compact
  compact-Aside c d h =
      if_both (Aside c) (d.out_off == length d.out)
        (record { same_beside = h.same_beside; same_recvs = h.same_recvs; closing = h.closing })
        (if_both (Aside c) (ltb (length d.out / 2) d.out_off)
          (record { same_beside = h.same_beside; same_recvs = h.same_recvs; closing = h.closing })
          h)

  on_sent-Leaves : (t : Turn P) (sent : ℕ) → Leaves t (on_sent t sent)
  unfolding on_sent
  on_sent-Leaves t sent = record {
    conn =
        compact-Aside t.conn _ (record { same_beside = refl; same_recvs = refl; closing = λ h. h });
    worker = record {
      conns = refl;
      accepted = refl;
      closed = refl;
      draining = refl;
      listening = refl;
    };
  }

  -- A round on a turn that only the kernel's next answer tells from the first.
  on_send_answer-Leaves :
      (t : Turn P) (rest : List SendResult) (r : SendResult)
      → LeavesRound t (on_send_answer (send_taken t rest) r)
  unfolding on_send_answer
  on_send_answer-Leaves t rest r = of_answer r
    where
      taken : Leaves t (send_taken t rest)
      taken = record {
        conn = record { same_beside = refl; same_recvs = refl; closing = λ h. h };
        worker = SameWorker-refl t.worker;
      }

      of_answer : (r : SendResult) → LeavesRound t (on_send_answer (send_taken t rest) r)
      of_answer (send_failed e) = on_failed-Leaves t (send_taken t rest) e taken
      of_answer (room_for k) =
          let sent = min k (out_pending t.conn) in
          let h = Leaves-trans taken (on_sent-Leaves (send_taken t rest) sent) in
          if_both (LeavesRound t) (ltb sent (out_pending t.conn)) (blocked t _ h) h

  on_sent_file-Leaves : (t : Turn P) (fd sent : ℕ) → Leaves t (on_sent_file t fd sent)
  unfolding on_sent_file
  on_sent_file-Leaves t fd sent = record {
    conn = record { same_beside = refl; same_recvs = refl; closing = λ h. h };
    worker = record {
      conns = refl;
      accepted = refl;
      closed = refl;
      draining = refl;
      listening = refl;
    };
  }

  after_file-Leaves :
      (t u : Turn P) (short : Bool) → Leaves t u → LeavesRound t (after_file u short)
  unfolding after_file
  after_file-Leaves t u short h =
      if_both (LeavesRound t) (u.conn.file_left == 0)
        (record {
          conn = record {
            same_beside = h.conn.same_beside;
            same_recvs = h.conn.same_recvs;
            closing = h.conn.closing;
          };
          worker = h.worker;
        })
        (if_both (LeavesRound t) short (blocked t u h) h)

  on_file_answer-Leaves :
      (t : Turn P) (rest : List SendResult) (fd : ℕ) (r : SendResult)
      → LeavesRound t (on_file_answer (sendfile_taken t rest) fd r)
  unfolding on_file_answer
  on_file_answer-Leaves t rest fd r = of_answer r
    where
      taken : Leaves t (sendfile_taken t rest)
      taken = record {
        conn = record { same_beside = refl; same_recvs = refl; closing = λ h. h };
        worker = SameWorker-refl t.worker;
      }

      of_answer : (r : SendResult) → LeavesRound t (on_file_answer (sendfile_taken t rest) fd r)
      of_answer (send_failed e) = on_failed-Leaves t (sendfile_taken t rest) e taken
      of_answer (room_for k) =
          let want = min t.conn.file_left sendfile_max in
          let sent = min k want in
          if_both (LeavesRound t) (sent == 0) taken (
            after_file-Leaves t (on_sent_file (sendfile_taken t rest) fd sent) (ltb sent want)
              (Leaves-trans taken (on_sent_file-Leaves (sendfile_taken t rest) fd sent)))

  on_refilled-Leaves :
      (t : Turn P) (o : Option (Connection P))
      → ((d : Connection P) → o ≡ some d → Extends t.conn d)
      → LeavesRound t (on_refilled t o)
  on_refilled-Leaves t none h = record {
    conn = Aside-refl t.conn;
    worker = SameWorker-refl t.worker;
  }
  on_refilled-Leaves t (some d) h =
      let x = h d refl in
      record {
        conn = record {
          same_beside = x.same_beside;
          same_recvs = ap (λ s. s.recvs) x.same_socket;
          closing = x.closing;
        };
        worker = SameWorker-refl t.worker;
      }

  body_round-Leaves :
      (env : Env P) (t : Turn P) (file : Option ℕ) (producer : Option P)
      → LeavesRound t (body_round env t file producer)
  unfolding body_round sendfile_round produce_round
  body_round-Leaves env t (some fd) producer =
      let next = next_answer t.conn.socket.sendfiles in on_file_answer-Leaves t next.1 fd next.0
  body_round-Leaves env t none (some p) =
      on_refilled-Leaves t (refill_from_producer env.pull t.conn)
        (refill_from_producer-Extends env.pull t.conn)
  body_round-Leaves env t none none = record {
    conn = Aside-refl t.conn;
    worker = SameWorker-refl t.worker;
  }

  write_round-Leaves : (env : Env P) (t : Turn P) → LeavesRound t (write_round env t)
  unfolding write_round send_round
  write_round-Leaves env t =
      let next = next_answer t.conn.socket.sends in
      if_both (LeavesRound t) (ltb 0 (out_pending t.conn)) (on_send_answer-Leaves t next.1 next.0)
        (body_round-Leaves env t t.conn.file t.conn.producer)

  abbrev LeavesOption : Turn P → Option (Turn P × Bool) → Type ℓ
  LeavesOption t none = Unit {ℓ}
  LeavesOption t (some r) = Leaves t r.0

  after_round-Leaves :
      (t : Turn P) (w : WriteRound P) (k : Turn P → Option (Turn P × Bool))
      → LeavesRound t w
      → ((u : Turn P) → LeavesOption u (k u))
      → LeavesOption t (after_round w k)
  after_round-Leaves t (fails u) k h ih = h
  after_round-Leaves t (stops u) k h ih = h
  after_round-Leaves t (goes_on u) k h ih = joined (k u) (ih u)
    where
      joined : (o : Option (Turn P × Bool)) → LeavesOption u o → LeavesOption t o
      joined none g = tt
      joined (some r) g = Leaves-trans h g

  write_loop-Leaves : (env : Env P) (fuel : ℕ) (t : Turn P) → LeavesOption t (write_loop env fuel t)
  unfolding write_loop
  write_loop-Leaves env zero t = tt
  write_loop-Leaves env (suc fuel) t =
      elim t.conn.can_write
        as (λ b. LeavesOption t (elim b [
          | false ↦ some (t, true)
          | true ↦ after_round (write_round env t) (write_loop env fuel)
        ])) [
          | false ↦ record { conn = Aside-refl t.conn; worker = SameWorker-refl t.worker }
          | true ↦
              after_round-Leaves t (write_round env t) (write_loop env fuel)
                (write_round-Leaves env t) (write_loop-Leaves env fuel)
        ]

  pub do_write-Leaves :
      (env : Env P) (t : Turn P) (r : Turn P × Bool) → do_write env t ≡ some r → Leaves t r.0
  unfolding do_write
  do_write-Leaves env t r e = subst (LeavesOption t) e (write_loop-Leaves env (write_fuel t) t)
