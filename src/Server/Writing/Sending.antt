-- ===== src/Server/Writing/Sending.antt =====
-- What one call of `send` or `sendfile` does to the flow of a connection.
use http.Base.{
  ℕ, ◌+◌, ◌-◌, ◌/◌, ◌≤◌, ◌≡◌, refl, ◌∙◌, ap, sym, subst, Bool, ◌++◌, none, some, ltb, ◌==◌, if_both,
  if_each, length, arith, take, drop, min, drop_all,
}
use http.Server.{
  Errno, interrupted, would_block, other_error, SendResult, room_for, send_failed, Connection, Turn,
  out_pending, sendfile_max,
}
use http.Server.Writing.{
  WriteRound, fails, stops, goes_on, as_items, file_items, next_answer, on_failed, send_taken,
  sendfile_taken, compact, on_sent, on_send_answer, send_round, on_sent_file, after_file,
  on_file_answer, sendfile_round,
}
use http.Server.Writing.Items.{
  HasOutput, file_rest, flow, Carries, Carries-same, Carries-trans, length_zero, flow_sent,
  flow_sent_file, file_rest_zero,
}

module _ {ℓ} {P : Type ℓ} where
  -- Dropping what has been sent changes nothing of what is pending.
  pub compact-HasOutput : (c : Connection P) → c.out_off ≤ length c.out → HasOutput (compact c)
  unfolding compact
  compact-HasOutput c h =
      if_each HasOutput (c.out_off == length c.out)
        (λ e. record { within = omega arith; drained = λ q. refl })
        λ e.
          if_both HasOutput (ltb (length c.out / 2) c.out_off)
            (record { within = omega arith; drained = length_zero (drop c.out_off c.out) })
            (record { within = h; drained = λ q. absurd (ground arith) })

  pub flow-compact : (c : Connection P) → c.out_off ≤ length c.out → flow (compact c) ≡ flow c
  unfolding compact
  flow-compact c h =
      if_each (λ (d : Connection P). flow d ≡ flow c) (c.out_off == length c.out)
        (λ e.
          let all = drop_all c.out_off c.out (ground arith) in
          ap (λ s. c.socket.wire ++ (as_items s ++ file_rest c.file c.file_off c.file_left))
            (sym all))
        λ e.
          if_both (λ (d : Connection P). flow d ≡ flow c) (ltb (length c.out / 2) c.out_off) refl
            refl

  pub compact-producer : (c : Connection P) → (compact c).producer ≡ c.producer
  unfolding compact
  compact-producer c =
      if_both (λ (d : Connection P). d.producer ≡ c.producer) (c.out_off == length c.out) refl
        (if_both (λ (d : Connection P). d.producer ≡ c.producer) (ltb (length c.out / 2) c.out_off)
          refl refl)

  pub on_sent-Carries :
      (t : Turn P) (sent : ℕ)
      → sent ≤ out_pending t.conn
      → HasOutput t.conn
      → Carries t.conn (on_sent t sent).conn
  unfolding on_sent
  on_sent-Carries t sent h v =
      let c = t.conn in
      let d : Connection P = record c {
        socket = record c.socket {
          wire = c.socket.wire ++ as_items (take sent (drop c.out_off c.out));
        };
        out_off = c.out_off + sent;
        last_active_us = t.worker.now_us;
      } in
      let w : c.out_off + sent ≤ length c.out = omega (arith, v.within) in
      Carries-same c (compact d) (compact-HasOutput d w)
        (flow-compact d w
          ∙ flow_sent c.socket.wire c.out c.out_off sent (file_rest c.file c.file_off c.file_left))
        (compact-producer d)

  -- What a round leaves.
  abbrev pub CarriesRound : Connection P → WriteRound P → Type ℓ
  CarriesRound c (fails u) = Carries c u.conn
  CarriesRound c (stops u) = Carries c u.conn
  CarriesRound c (goes_on u) = Carries c u.conn

  pub on_failed-Carries :
      (c : Connection P) (t : Turn P) (e : Errno)
      → Carries c t.conn
      → CarriesRound c (on_failed t e)
  on_failed-Carries c t interrupted h = h
  on_failed-Carries c t would_block h = h
  on_failed-Carries c t other_error h = h

  pub on_send_answer-Carries :
      (t : Turn P) (r : SendResult) → HasOutput t.conn → CarriesRound t.conn (on_send_answer t r)
  unfolding on_send_answer
  on_send_answer-Carries t (send_failed e) v =
      on_failed-Carries t.conn t e (Carries-same t.conn t.conn v refl refl)
  on_send_answer-Carries t (room_for k) v =
      let sent = min k (out_pending t.conn) in
      let w = on_sent-Carries t sent (omega arith) v in
      if_both (CarriesRound t.conn) (ltb sent (out_pending t.conn)) w w

  pub send_round-Carries : (t : Turn P) → HasOutput t.conn → CarriesRound t.conn (send_round t)
  unfolding send_round
  send_round-Carries t v =
      let next = next_answer t.conn.socket.sends in
      on_send_answer-Carries (send_taken t next.1) next.0 v

  -- Bytes that go from the file to the wire stay in the flow.
  pub on_sent_file-Carries :
      (t : Turn P) (fd sent : ℕ)
      → t.conn.file ≡ some fd
      → out_pending t.conn ≡ 0
      → sent ≤ t.conn.file_left
      → HasOutput t.conn
      → Carries t.conn (on_sent_file t fd sent).conn
  unfolding on_sent_file
  on_sent_file-Carries t fd sent f z h v =
      let c = t.conn in
      let none_left = drop_all c.out_off c.out (omega arith) in
      Carries-same c (on_sent_file t fd sent).conn v
        (subst
          (λ o.
            (c.socket.wire ++ file_items fd c.file_off sent)
              ++ (as_items (drop c.out_off c.out)
                  ++ file_rest o (c.file_off + sent) (c.file_left - sent))
            ≡ c.socket.wire
              ++ (as_items (drop c.out_off c.out) ++ file_rest o c.file_off c.file_left))
          (sym f)
          (flow_sent_file c.socket.wire (drop c.out_off c.out) fd c.file_off sent c.file_left
            none_left h))
        refl

  pub Carries-closed :
      (c d : Connection P) → Carries c d → d.file_left ≡ 0 → Carries c (record d { file = none })
  Carries-closed c d h z =
      Carries-trans c d (record d { file = none }) h
        (Carries-same d (record d { file = none }) h.0
          (ap (λ r. d.socket.wire ++ (as_items (drop d.out_off d.out) ++ r))
            (sym (file_rest_zero d.file d.file_off d.file_left z)))
          refl)

  pub after_file-Carries :
      (c : Connection P) (t : Turn P) (short : Bool)
      → Carries c t.conn
      → CarriesRound c (after_file t short)
  unfolding after_file
  after_file-Carries c t short h =
      if_each (CarriesRound c) (t.conn.file_left == 0)
        (λ e. Carries-closed c t.conn h (ground arith)) λ e. if_both (CarriesRound c) short h h

  pub on_file_answer-Carries :
      (t : Turn P) (fd : ℕ) (r : SendResult)
      → t.conn.file ≡ some fd
      → out_pending t.conn ≡ 0
      → HasOutput t.conn
      → CarriesRound t.conn (on_file_answer t fd r)
  unfolding on_file_answer
  on_file_answer-Carries t fd (send_failed e) f z v =
      on_failed-Carries t.conn t e (Carries-same t.conn t.conn v refl refl)
  on_file_answer-Carries t fd (room_for k) f z v =
      let want = min t.conn.file_left sendfile_max in
      let sent = min k want in
      if_both (CarriesRound t.conn) (sent == 0) (Carries-same t.conn t.conn v refl refl) (
        after_file-Carries t.conn (on_sent_file t fd sent) (ltb sent want)
          (on_sent_file-Carries t fd sent f z (omega arith) v))

  pub sendfile_round-Carries :
      (t : Turn P) (fd : ℕ)
      → t.conn.file ≡ some fd
      → out_pending t.conn ≡ 0
      → HasOutput t.conn
      → CarriesRound t.conn (sendfile_round t fd)
  unfolding sendfile_round
  sendfile_round-Carries t fd f z v =
      let next = next_answer t.conn.socket.sendfiles in
      on_file_answer-Carries (sendfile_taken t next.1) fd next.0 f z v
