-- ===== src/Server/Driving/Reading.antt =====
-- `do_read` moves bytes from the kernel to the input, and each answer that it takes is gone.
use http.Base.{
  ℕ, suc, ◌+◌, ◌*◌, ◌≤◌, ◌<◌, ◌≡◌, refl, ◌∙◌, ap, sym, subst, ◌⊎◌, inl, inr, Bool, true, false, not,
  List, [], ◌∷◌, Bool-cases, if_both, ltb, length, append-nil, arith,
}
use http.ByteBuffer.{size, prepare}
use http.ByteBuffer.Prepare.{IsValid, prepare-Prepared}
use http.ByteBuffer.Queue.{receive-readable}
use http.Server.{
  interrupted, would_block, other_error, RecvResult, received, recv_failed, Item, Connection, Turn,
  read_size,
}
use http.Server.Reading.{recv_taken, on_received, read_loop, do_read}
use http.Server.Reading.Absorbed.{AllFit, size-prepare, size-receive}
use http.Server.Sharing.{SameWorker, SameWorker-refl}
use http.Server.Writing.Items.{HasOutput, flow}
use http.Server.Writing.Measure.{flag, measure}
use http.Server.Steps.{recv_work, ripe, IsSound, Moves, Moves-refl, Moves-trans}

recv_work_falls : (r : RecvResult) (rs : List RecvResult) → recv_work rs < recv_work (r ∷ rs)
recv_work_falls (received s) rs = omega arith
recv_work_falls (recv_failed e) rs = omega arith

module _ {ℓ} {P : Type ℓ} where
  -- A connection's input, in the buffer and still with the kernel.
  abbrev incoming : Connection P → ℕ
  incoming c = size c.input + recv_work c.socket.recvs

  -- Everything that a read does not change.
  abbrev others : Connection P → List Item × ℕ × ℕ
  others c = (
    flow c,
    measure c,
    flag (not c.continue_sent) + (4 * ripe c.parser + flag (not c.close_after_write)),
  )

  read_step :
      (t u : Turn P)
      → IsSound u.conn
      → others u.conn ≡ others t.conn
      → SameWorker t.worker u.worker
      → incoming u.conn ≤ incoming t.conn
      → (u.progress ≡ true → (t.progress ≡ true) ⊎ (incoming u.conn < incoming t.conn))
      → Moves t u
  read_step t u s o w l p =
      let m : measure u.conn ≡ measure t.conn = ap (λ x. x.1) o in
      let d : flag (not u.conn.continue_sent)
            + (4 * ripe u.conn.parser + flag (not u.conn.close_after_write))
          ≡ flag (not t.conn.continue_sent)
            + (4 * ripe t.conn.parser + flag (not t.conn.close_after_write)) =
        ap (λ x. x.2) o in
      record {
        sound = s;
        more = [];
        carried = ap (λ x. x.0) o ∙ sym (append-nil (flow t.conn));
        worker = w;
        bounded = omega arith;
        paid = λ e. elim (p e) [ inl q ↦ inl q | inr q ↦ inr (omega arith) ];
      }

  -- An answer without a byte has been taken.
  taken-Moves :
      (t : Turn P) (r : RecvResult) (rs : List RecvResult) (u : Turn P)
      → t.conn.socket.recvs ≡ r ∷ rs
      → IsSound t.conn
      → u.conn.input ≡ prepare t.conn.input read_size
      → u.conn.socket.recvs ≡ rs
      → HasOutput u.conn
      → others u.conn ≡ others t.conn
      → SameWorker t.worker u.worker
      → Moves t u
  taken-Moves t r rs u g s i k h o w =
      let n : size u.conn.input ≡ size t.conn.input =
        ap size i ∙ size-prepare t.conn.input read_size s.valid in
      let was : recv_work t.conn.socket.recvs ≡ recv_work (r ∷ rs) = ap recv_work g in
      let now : recv_work u.conn.socket.recvs ≡ recv_work rs = ap recv_work k in
      let l = recv_work_falls r rs in
      read_step t u
        (record {
          valid = subst IsValid (sym i) (prepare-Prepared t.conn.input read_size s.valid).valid;
          fits = h;
          kernel = subst AllFit (sym k) (subst AllFit g s.kernel).1;
        })
        o w (omega arith) (λ e. inr (omega arith))

  -- Bytes have been taken.
  received-Moves :
      (t : Turn P) (b : List ℕ) (rs : List RecvResult)
      → t.conn.socket.recvs ≡ received b ∷ rs
      → IsSound t.conn
      → Moves t (on_received t rs b)
  received-Moves t b rs g s =
      let fit = subst AllFit g s.kernel in
      let n = size-receive t.conn.input read_size b s.valid fit.0 in
      let was : recv_work t.conn.socket.recvs ≡ suc (length b + recv_work rs) = ap recv_work g in
      read_step t (on_received t rs b)
        (record {
          valid = (receive-readable t.conn.input read_size b s.valid fit.0).0;
          fits = record { within = s.fits.within; drained = s.fits.drained };
          kernel = fit.1;
        })
        refl
        (record { conns = refl; accepted = refl; closed = refl; draining = refl; listening = refl })
        (omega arith) (λ e. inr (omega arith))

  -- The kernel has no answer, so the call would block.
  blocked-Moves :
      (t : Turn P)
      → IsSound t.conn
      → Moves t
          (record t { conn = record (recv_taken t t.conn.socket.recvs).conn { can_read = false } })
  blocked-Moves t s =
      let n = size-prepare t.conn.input read_size s.valid in
      read_step t _
        (record {
          valid = (prepare-Prepared t.conn.input read_size s.valid).valid;
          fits = record { within = s.fits.within; drained = s.fits.drained };
          kernel = s.kernel;
        })
        refl (SameWorker-refl t.worker) (omega arith) inl

  read_loop-Moves :
      (room : ℕ) (rs : List RecvResult) (t : Turn P)
      → t.conn.socket.recvs ≡ rs
      → IsSound t.conn
      → Moves t (read_loop room rs t).0
  unfolding read_loop
  read_loop-Moves room [] t g s =
      if_both (λ (r : Turn P × Bool). Moves t r.0) (ltb (size t.conn.input) room)
        (subst
          (λ rs. Moves t (record t { conn = record (recv_taken t rs).conn { can_read = false } })) g
          (blocked-Moves t s))
        (Moves-refl t s)
  read_loop-Moves room (received [] ∷ rs) t g s = elim (Bool-cases (ltb (size t.conn.input) room)) [
    | inl e ↦
        rw (e, read_loop)
          (taken-Moves t _ rs _ g s refl refl s.fits refl (SameWorker-refl t.worker))
    | inr e ↦ rw (e, read_loop) (Moves-refl t s)
  ]
  read_loop-Moves room (received (c ∷ b) ∷ rs) t g s =
      elim (Bool-cases (ltb (size t.conn.input) room)) [
        | inl e ↦
            rw (e, read_loop)
              (let m = received-Moves t (c ∷ b) rs g s in
                Moves-trans m (read_loop-Moves room rs (on_received t rs (c ∷ b)) refl m.sound))
        | inr e ↦ rw (e, read_loop) (Moves-refl t s)
      ]
  read_loop-Moves room (recv_failed interrupted ∷ rs) t g s =
      elim (Bool-cases (ltb (size t.conn.input) room)) [
        | inl e ↦
            rw (e, read_loop)
              (let m =
                  taken-Moves t _ rs (recv_taken t rs) g s refl refl s.fits refl
                    (SameWorker-refl t.worker) in
                Moves-trans m (read_loop-Moves room rs (recv_taken t rs) refl m.sound))
        | inr e ↦ rw (e, read_loop) (Moves-refl t s)
      ]
  read_loop-Moves room (recv_failed would_block ∷ rs) t g s =
      elim (Bool-cases (ltb (size t.conn.input) room)) [
        | inl e ↦
            rw (e, read_loop)
              (taken-Moves t _ rs _ g s refl refl s.fits refl (SameWorker-refl t.worker))
        | inr e ↦ rw (e, read_loop) (Moves-refl t s)
      ]
  read_loop-Moves room (recv_failed other_error ∷ rs) t g s =
      elim (Bool-cases (ltb (size t.conn.input) room)) [
        | inl e ↦
            rw (e, read_loop)
              (taken-Moves t _ rs _ g s refl refl s.fits refl (SameWorker-refl t.worker))
        | inr e ↦ rw (e, read_loop) (Moves-refl t s)
      ]

  pub do_read-Moves : (room : ℕ) (t : Turn P) → IsSound t.conn → Moves t (do_read room t).0
  unfolding do_read
  do_read-Moves room t s = read_loop-Moves room t.conn.socket.recvs t refl s
