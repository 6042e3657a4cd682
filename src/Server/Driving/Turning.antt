-- ===== src/Server/Driving/Turning.antt =====
-- `drive` returns, and what it does is a run of moves.
use http.Base.{
  ℕ, zero, suc, ◌≤◌, ◌<◌, ◌≡◌, refl, ◌∙◌, ap, sym, subst, inl, inr, Bool, true, false, not, ◌&&◌,
  List, ◌++◌, Option, some, ◌==◌, if_both, append_assoc, arith,
}
use http.Parser.{started, failed}
use http.ByteBuffer.{size}
use http.ByteBuffer.Prepare.{IsValid}
use http.Server.{Item, Turn, Env, out_pending, is_some, max_in_buffer}
use http.Server.Sharing.{SameWorker, SameWorker-trans}
use http.Server.Writing.{do_write}
use http.Server.Writing.Items.{flow, Carries}
use http.Server.Writing.Measure.{flag, flag_bound}
use http.Server.Writing.Beside.{Leaves, do_write-Leaves}
use http.Server.Writing.Halting.{do_write-Returns, do_write-Carries}
use http.Server.Reading.Absorbed.{AllFit}
use http.Server.Steps.{recv_work, ripe, chores, effort, IsSound, Moves, Moves-refl, Moves-trans}
use http.Server.Processing.Replying.{flag_closing}
use http.Server.Processing.Running.{process-Moves}
use http.Server.Driving.{
  may_read, may_write, fresh_turn, read_part, write_part, then_write, then_process, drive_round,
  if_progress, drive_loop, after_loop, finish, drive_fuel, drive,
}
use http.Server.Driving.Reading.{do_read-Moves}

module _ {ℓ} {P : Type ℓ} where
  -- What a part of `drive` leaves; progress of a connection that lives is paid for.
  pub record Drives (t : Turn P) (r : Turn P × Bool) : Type ℓ where
    pub sound : IsSound r.0.conn
    pub more : List Item
    pub carried : flow r.0.conn ≡ flow t.conn ++ more
    pub worker : SameWorker t.worker r.0.worker
    pub live : r.1 ≡ true → Moves t r.0

  Drives-moved : (t u : Turn P) (ok : Bool) → Moves t u → Drives t (u, ok)
  Drives-moved t u ok m = record {
    sound = m.sound;
    more = m.more;
    carried = m.carried;
    worker = m.worker;
    live = λ e. m;
  }

  Drives-trans : {t u : Turn P} {r : Turn P × Bool} → Moves t u → Drives u r → Drives t r
  Drives-trans {t = t} m d = record {
    sound = d.sound;
    more = m.more ++ d.more;
    carried =
        d.carried ∙ ap (λ f. f ++ d.more) m.carried ∙ append_assoc (flow t.conn) m.more d.more;
    worker = SameWorker-trans m.worker d.worker;
    live = λ e. Moves-trans m (d.live e);
  }

  Leaves-chores : (t u : Turn P) → Leaves t u → chores u.conn ≤ chores t.conn
  Leaves-chores t u l =
      let input : size u.conn.input ≡ size t.conn.input = ap (λ x. size x.0) l.conn.same_beside in
      let parser : ripe u.conn.parser ≡ ripe t.conn.parser =
        ap (λ x. ripe x.1) l.conn.same_beside in
      let cont : flag (not u.conn.continue_sent) ≡ flag (not t.conn.continue_sent) =
        ap (λ x. flag (not x.2)) l.conn.same_beside in
      omega (arith, flag_closing t.conn.close_after_write u.conn.close_after_write l.conn.closing)

  do_write-Drives :
      (env : Env P) (t : Turn P)
      → IsSound t.conn
      → (r : Turn P × Bool) × (do_write env t ≡ some r) × Drives t r
  do_write-Drives env t s =
      let (r, e, paid) = do_write-Returns env t s.fits in
      let (r', e', c) = do_write-Carries env t s.fits in
      let same : r' ≡ r = cc in
      let (fits, more, carried, kept) =
        subst (λ (x : Turn P × Bool). Carries t.conn x.0.conn) same c in
      let l = do_write-Leaves env t r e in
      let sound : IsSound r.0.conn = record {
        valid = subst IsValid (sym (ap (λ x. x.0) l.conn.same_beside)) s.valid;
        fits = fits;
        kernel = subst AllFit (sym l.conn.same_recvs) s.kernel;
      } in
      let left = Leaves-chores t r.0 l in
      let kernel : recv_work r.0.conn.socket.recvs ≡ recv_work t.conn.socket.recvs =
        ap recv_work l.conn.same_recvs in
      (
        r,
        e,
        record {
          sound = sound;
          more = more;
          carried = carried;
          worker = l.worker;
          live = λ alive.
              let (le, falls) = paid alive in
              record {
                sound = sound;
                more = more;
                carried = carried;
                worker = l.worker;
                bounded = omega arith;
                paid = λ p. elim (falls p) [ inl q ↦ inl q | inr q ↦ inr (omega arith) ];
              };
        },
      )

  abbrev Returns : Turn P → Option (Turn P × Bool) → Type ℓ
  Returns t o = (r : Turn P × Bool) × (o ≡ some r) × Drives t r

  Returns-trans :
      {t u : Turn P} {o : Option (Turn P × Bool)} → Moves t u → Returns u o → Returns t o
  Returns-trans m (r, e, d) = (r, e, Drives-trans m d)

  write_part-Returns : (env : Env P) (t : Turn P) → IsSound t.conn → Returns t (write_part env t)
  unfolding write_part
  write_part-Returns env t s =
      if_both (Returns t) (may_write t.conn) (do_write-Drives env t s)
        ((t, true), refl, Drives-moved t t true (Moves-refl t s))

  read_part-Drives : (env : Env P) (t : Turn P) → IsSound t.conn → Moves t (read_part env t).0
  unfolding read_part
  read_part-Drives env t s =
      if_both (λ (r : Turn P × Bool). Moves t r.0) (may_read env t.conn)
        (do_read-Moves (max_in_buffer env) t s) (Moves-refl t s)

  then_process-Returns :
      (env : Env P) (t : Turn P) (r : Turn P × Bool) → Moves t r.0 → Returns t (then_process env r)
  then_process-Returns env t (u, false) m = ((u, false), refl, Drives-moved t u false m)
  then_process-Returns env t (u, true) m =
      let (v, e, k) = process-Moves env u m.sound in
      Returns-trans m (
        Returns-trans k
          (subst (λ o. Returns v (then_write env o)) (sym e) (write_part-Returns env v k.sound)))

  drive_round-Returns :
      (env : Env P) (t : Turn P) → IsSound t.conn → Returns (fresh_turn t) (drive_round env t)
  unfolding drive_round
  drive_round-Returns env t s =
      let sound : IsSound (fresh_turn t).conn = s in
      then_process-Returns env (fresh_turn t) (read_part env (fresh_turn t))
        (read_part-Drives env (fresh_turn t) sound)

  -- What the loop does to a connection; the flag `progress` has no meaning behind it.
  pub record Driven (t : Turn P) (r : Turn P × Bool) : Type ℓ where
    pub sound : IsSound r.0.conn
    pub more : List Item
    pub carried : flow r.0.conn ≡ flow t.conn ++ more
    pub worker : SameWorker t.worker r.0.worker

  Driven-round : (t : Turn P) (r : Turn P × Bool) → Drives (fresh_turn t) r → Driven t r
  Driven-round t r d = record {
    sound = d.sound;
    more = d.more;
    carried = d.carried;
    worker = d.worker;
  }

  Driven-trans :
      {t : Turn P} {r : Turn P × Bool} {q : Turn P × Bool} → Driven t r → Driven r.0 q → Driven t q
  Driven-trans {t = t} a b = record {
    sound = b.sound;
    more = a.more ++ b.more;
    carried =
        b.carried ∙ ap (λ f. f ++ b.more) a.carried ∙ append_assoc (flow t.conn) a.more b.more;
    worker = SameWorker-trans a.worker b.worker;
  }

  abbrev Ends : Turn P → Option (Turn P × Bool) → Type ℓ
  Ends t o = (r : Turn P × Bool) × (o ≡ some r) × Driven t r

  drive_loop-Ends :
      (env : Env P) (fuel : ℕ) (t : Turn P)
      → IsSound t.conn
      → effort t.conn < fuel
      → Ends t (drive_loop env fuel t)
  unfolding drive_loop
  drive_loop-Ends env zero t s h = absurd (omega arith)
  drive_loop-Ends env (suc fuel) t s h =
      let (r, e, d) = drive_round-Returns env t s in
      subst (λ o. Ends t (if_progress o (drive_loop env fuel))) (sym e)
        (go_on r d λ u v l. drive_loop-Ends env fuel u v (omega arith))
    where
      go_on :
          (r : Turn P × Bool)
          → Drives (fresh_turn t) r
          → ((u : Turn P)
              → IsSound u.conn
              → effort u.conn < effort t.conn
              → Ends u (drive_loop env fuel u))
          → Ends t (if_progress (some r) (drive_loop env fuel))
      go_on (u, false) d ih = ((u, false), refl, Driven-round t (u, false) d)
      go_on (u, true) d ih = of_flag u.progress refl
        where
          of_flag :
              (b : Bool)
              → u.progress ≡ b
              → Ends t (elim b [ false ↦ some (u, true) | true ↦ drive_loop env fuel u ])
          of_flag false q = ((u, true), refl, Driven-round t (u, true) d)
          of_flag true q = elim ((d.live refl).paid q) [
            | inl z ↦ absurd (cc)
            | inr l ↦
                let (x, e, k) = ih u d.sound l in
                (x, e, Driven-trans (Driven-round t (u, true) d) k)
          ]

-- On a connection whose input buffer and output are well formed, `drive` returns, whatever the kernel
-- answers, the client sends and the producers give: its fuel is enough. The buffer and the output stay
-- well formed; what is on the wire and pending is what was there before, and more behind it; and the
-- worker's connections, the counts of those that were accepted and closed, and whether it drains and
-- listens are left alone.
pub drive-Driven {ℓ} :
    {P : Type ℓ} (env : Env P) (t : Turn P)
    → IsSound t.conn
    → (r : Turn P × Bool) × (drive env t ≡ some r) × Driven t r
unfolding drive
drive-Driven env t s =
    let c = t.conn in
    let (r, e, d) = drive_loop-Ends env (drive_fuel c) t s (
      omega (
        arith,
        flag_bound (not c.continue_sent),
        flag_bound (started c.parser && not (failed c.parser)),
        flag_bound (not c.close_after_write),
        flag_bound (out_pending c == 0),
        flag_bound (is_some c.producer),
      )) in
    (
      (r.0, r.1 && after_loop r.0.conn),
      ap finish e,
      record { sound = d.sound; more = d.more; carried = d.carried; worker = d.worker },
    )
