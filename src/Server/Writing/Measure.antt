-- ===== src/Server/Writing/Measure.antt =====
-- The measure of `do_write`'s loop, and what one answer of the kernel does to it.
use http.Base.{
  ℕ, suc, ◌+◌, ◌*◌, ◌/◌, ◌≤◌, ◌<◌, ◌≡◌, refl, ◌⊎◌, inl, inr, ap, sym, subst, Bool, true, false,
  List, [], ◌∷◌, ◌++◌, Option, ltb, ◌==◌, if_both, length, arith, min, take, drop,
}
use http.Server.{
  Errno, interrupted, would_block, other_error, SendResult, room_for, send_failed, Socket,
  Connection, Turn, out_pending, sendfile_max, is_some,
}
use http.Server.Writing.{
  WriteRound, fails, stops, goes_on, next_answer, on_failed, send_taken, sendfile_taken, compact,
  on_sent, on_send_answer, send_round, on_sent_file, after_file, on_file_answer, sendfile_round,
  as_items,
}
use http.Server.Writing.Sending.{compact-producer}

abbrev pub answers : Socket → ℕ
answers s = length s.sends + length s.sendfiles

abbrev pub flag : Bool → ℕ
flag true = 1
flag false = 0

pub flag_bound : (b : Bool) → flag b ≤ 1
flag_bound true = omega arith
flag_bound false = omega arith

pub flag_pending : (n : ℕ) → 0 < n → flag (n == 0) ≡ 0
flag_pending n h = let e : (n == 0) ≡ false = ground arith in ap flag e

module _ {ℓ} {P : Type ℓ} where
  -- Answers count twice; a producer counts, and so does that nothing is pending.
  abbrev pub measure : Connection P → ℕ
  measure c = 2 * answers c.socket + (flag (out_pending c == 0) + flag (is_some c.producer))

  -- A round that goes on has made the measure fall; one that leaves the loop has, if it has made
  -- progress.
  abbrev pub Falls : ℕ → Bool → WriteRound P → Type 0
  Falls m progress (fails u) = Unit
  Falls m progress (stops u) =
      (measure u.conn ≤ m) × (u.progress ≡ true → (progress ≡ true) ⊎ (measure u.conn < m))
  Falls m progress (goes_on u) = measure u.conn < m

  -- One answer outweighs that nothing is pending any more.
  measure_falls :
      (c d : Connection P)
      → answers d.socket < answers c.socket
      → d.producer ≡ c.producer
      → measure d < measure c
  measure_falls c d h p =
      let same : flag (is_some d.producer) ≡ flag (is_some c.producer) =
        ap (λ o. flag (is_some o)) p in
      omega (arith, flag_bound (out_pending d == 0))

  -- Fewer answers, and the same producer.
  abbrev Answered : ℕ → Option P → WriteRound P → Type ℓ
  Answered n p (fails u) = Unit {ℓ}
  Answered n p (stops u) = (answers u.conn.socket < n) × (u.conn.producer ≡ p)
  Answered n p (goes_on u) = (answers u.conn.socket < n) × (u.conn.producer ≡ p)

  pub Answered-Falls :
      (c : Connection P) (progress : Bool) (r : WriteRound P)
      → Answered (answers c.socket) c.producer r
      → Falls (measure c) progress r
  Answered-Falls c progress (fails u) h = tt
  Answered-Falls c progress (stops u) h =
      let l = measure_falls c u.conn h.0 h.1 in (omega arith, λ e. inr l)
  Answered-Falls c progress (goes_on u) h = measure_falls c u.conn h.0 h.1

  compact-socket : (c : Connection P) → (compact c).socket ≡ c.socket
  unfolding compact
  compact-socket c =
      if_both (λ (d : Connection P). d.socket ≡ c.socket) (c.out_off == length c.out) refl
        (if_both (λ (d : Connection P). d.socket ≡ c.socket) (ltb (length c.out / 2) c.out_off) refl
          refl)

  on_failed-Answered :
      (n : ℕ) (t : Turn P) (e : Errno)
      → answers t.conn.socket < n
      → Answered n t.conn.producer (on_failed t e)
  on_failed-Answered n t interrupted h = (h, refl)
  on_failed-Answered n t would_block h = (h, refl)
  on_failed-Answered n t other_error h = tt

  on_sent-Answered :
      (n : ℕ) (t : Turn P) (sent : ℕ)
      → answers t.conn.socket < n
      → (answers (on_sent t sent).conn.socket < n)
        × ((on_sent t sent).conn.producer ≡ t.conn.producer)
  unfolding on_sent
  on_sent-Answered n t sent h =
      let d : Connection P = record t.conn {
        socket = record t.conn.socket {
          wire = t.conn.socket.wire ++ as_items (take sent (drop t.conn.out_off t.conn.out));
        };
        out_off = t.conn.out_off + sent;
        last_active_us = t.worker.now_us;
      } in
      (subst (λ k. answers k < n) (sym (compact-socket d)) h, compact-producer d)

  on_send_answer-Answered :
      (n : ℕ) (t : Turn P) (r : SendResult)
      → answers t.conn.socket < n
      → Answered n t.conn.producer (on_send_answer t r)
  unfolding on_send_answer
  on_send_answer-Answered n t (send_failed e) h = on_failed-Answered n t e h
  on_send_answer-Answered n t (room_for k) h =
      if_both (Answered n t.conn.producer) (ltb (min k (out_pending t.conn)) (out_pending t.conn))
        (on_sent-Answered n t (min k (out_pending t.conn)) h)
        (on_sent-Answered n t (min k (out_pending t.conn)) h)

  pub send_round-Falls : (t : Turn P) → Falls (measure t.conn) t.progress (send_round t)
  unfolding send_round on_send_answer
  send_round-Falls t = of_list t.conn.socket.sends refl
    where
      of_list :
          (rs : List SendResult)
          → t.conn.socket.sends ≡ rs
          → Falls
              (measure t.conn)
              t.progress
              (on_send_answer (send_taken t (next_answer rs).1) (next_answer rs).0)
      of_list [] e =
          let n : length t.conn.socket.sends ≡ 0 = ap length e in (omega arith, λ q. inl q)
      of_list (r ∷ rs) e =
          let n : length t.conn.socket.sends ≡ suc (length rs) = ap length e in
          Answered-Falls t.conn t.progress _
            (on_send_answer-Answered (answers t.conn.socket) (send_taken t rs) r (omega arith))

  after_file-Answered :
      (n : ℕ) (t : Turn P) (short : Bool)
      → answers t.conn.socket < n
      → Answered n t.conn.producer (after_file t short)
  unfolding after_file
  after_file-Answered n t short h =
      if_both (Answered n t.conn.producer) (t.conn.file_left == 0) (h, refl)
        (if_both (Answered n t.conn.producer) short (h, refl) (h, refl))

  on_file_answer-Answered :
      (n : ℕ) (t : Turn P) (fd : ℕ) (r : SendResult)
      → answers t.conn.socket < n
      → Answered n t.conn.producer (on_file_answer t fd r)
  unfolding on_file_answer on_sent_file
  on_file_answer-Answered n t fd (send_failed e) h = on_failed-Answered n t e h
  on_file_answer-Answered n t fd (room_for k) h =
      let want = min t.conn.file_left sendfile_max in
      let sent = min k want in
      if_both (Answered n t.conn.producer) (sent == 0) tt
        (after_file-Answered n (on_sent_file t fd sent) (ltb sent want) h)

  pub sendfile_round-Falls :
      (t : Turn P) (fd : ℕ) → Falls (measure t.conn) t.progress (sendfile_round t fd)
  unfolding sendfile_round on_file_answer
  sendfile_round-Falls t fd = of_list t.conn.socket.sendfiles refl
    where
      of_list :
          (rs : List SendResult)
          → t.conn.socket.sendfiles ≡ rs
          → Falls
              (measure t.conn)
              t.progress
              (on_file_answer (sendfile_taken t (next_answer rs).1) fd (next_answer rs).0)
      of_list [] e =
          let n : length t.conn.socket.sendfiles ≡ 0 = ap length e in (omega arith, λ q. inl q)
      of_list (r ∷ rs) e =
          let n : length t.conn.socket.sendfiles ≡ suc (length rs) = ap length e in
          Answered-Falls t.conn t.progress _ (
            on_file_answer-Answered (answers t.conn.socket) (sendfile_taken t rs) fd r
              (omega arith))
