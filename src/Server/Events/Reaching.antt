-- ===== src/Server/Events/Reaching.antt =====
-- The worker from its start: each event is handled, and what it keeps stays kept.
use http.Base.{
  ℕ, zero, suc, ◌≡◌, refl, ◌∙◌, ap, sym, subst, Bool, true, false, List, [], ◌∷◌, Option, none,
  some, if_both, length, arith,
}
use http.Metrics.{bump}
use http.Server.{
  interrupted, would_block, other_error, Socket, Connection, new_connection, Worker, new_worker,
  Turn, Env, is_some, accept_batch,
}
use http.Server.Reading.Absorbed.{AllFit}
use http.Server.Steps.{IsSound}
use http.Server.Timers.{sweep, find_conn, close_connection, begin_drain}
use http.Server.Driving.Turning.{Driven, drive-Driven}
use http.Server.Events.{
  AcceptResult, accepted, accept_failed, Event, woken, acceptable, ready, put_conn,
  count_accept_error, accept_loop, on_accept, store_conn, after_drive, on_ready, on_event, wake_up,
}
use http.Server.Events.Keeping.{
  AllSound, IsKept, find_conn-IsSound, store_conn-AllSound, close_connection-IsKept, sweep-IsKept,
  begin_drain-IsKept,
}

module _ {ℓ} {P : Type ℓ} where
  new_connection-IsSound :
      (env : Env P) (s : Socket) (now : ℕ)
      → AllFit s.recvs
      → IsSound {P = P} (new_connection s env.cfg.limits now)
  new_connection-IsSound env s now f = record {
    valid = record { ordered = omega arith; within = omega arith };
    fits = record { within = omega arith; drained = λ e. refl };
    kernel = f;
  }

  -- The kernel gives an accepted connection a descriptor that is not in use, and `recv` gives no more
  -- than it is asked for.
  unfoldable pub AreNew : Env P → ℕ → List AcceptResult → List (ℕ × Connection P) → Type 0
  AreNew env now [] cs = Unit
  AreNew env now (accept_failed e ∷ rs) cs = AreNew env now rs cs
  AreNew env now (accepted fd s false ∷ rs) cs = AreNew env now rs cs
  AreNew env now (accepted fd s true ∷ rs) cs =
      (is_some (find_conn cs fd) ≡ false)
      × AllFit s.recvs
      × AreNew env now rs ((fd, new_connection s env.cfg.limits now) ∷ cs)

  abbrev pub IsDelivered : Env P → Worker P → Event → Type 0
  IsDelivered env w woken = Unit
  IsDelivered env w (acceptable rs) = AreNew env w.now_us rs w.conns
  IsDelivered env w (ready fd readable writable recvs sends sendfiles) = AllFit recvs

  put_conn_new :
      (w : Worker P) (fd : ℕ) (c : Connection P)
      → is_some (find_conn w.conns fd) ≡ false
      → put_conn w fd c ≡ record w { conns = (fd, c) ∷ w.conns }
  unfolding put_conn
  put_conn_new w fd c = of_found (find_conn w.conns fd)
    where
      of_found :
          (o : Option (Connection P))
          → is_some o ≡ false
          → (elim o as (λ x. Worker P) [
            | some d ↦ w
            | none ↦ record w { conns = (fd, c) ∷ w.conns }
          ])
            ≡ record w { conns = (fd, c) ∷ w.conns }
      of_found none e = refl
      of_found (some d) e = absurd (cc)

  -- An accepted connection is counted and open.
  accepted-IsKept :
      (env : Env P) (w : Worker P) (fd : ℕ) (s : Socket)
      → AllFit s.recvs
      → IsKept w
      → IsKept (record w {
        conns = (fd, new_connection s env.cfg.limits w.now_us) ∷ w.conns;
        metrics = record w.metrics { connections_accepted = bump w.metrics.connections_accepted 1 };
      })
  unfolding bump
  accepted-IsKept env w fd s f k = record {
    sound = (new_connection-IsSound env s w.now_us f, k.sound);
    balanced = omega (arith, k.balanced);
  }

  accept_loop-IsKept :
      (env : Env P) (n : ℕ) (rs : List AcceptResult) (w : Worker P)
      → IsKept w
      → AreNew env w.now_us rs w.conns
      → IsKept (accept_loop env n rs w)
  unfolding accept_loop AreNew
  accept_loop-IsKept env zero rs w k h = k
  accept_loop-IsKept env (suc n) [] w k h = k
  accept_loop-IsKept env (suc n) (accept_failed interrupted ∷ rs) w k h =
      accept_loop-IsKept env n rs w k h
  accept_loop-IsKept env (suc n) (accept_failed would_block ∷ rs) w k h = k
  accept_loop-IsKept env (suc n) (accept_failed other_error ∷ rs) w k h = record {
    sound = k.sound;
    balanced = k.balanced;
  }
  accept_loop-IsKept env (suc n) (accepted fd s false ∷ rs) w k h =
      accept_loop-IsKept env n rs (count_accept_error w)
        (record { sound = k.sound; balanced = k.balanced }) h
  accept_loop-IsKept env (suc n) (accepted fd s true ∷ rs) w k h =
      let counted : Worker P = record w {
        metrics = record w.metrics { connections_accepted = bump w.metrics.connections_accepted 1 };
      } in
      let (new, fit, rest) = h in
      subst (λ v. IsKept (accept_loop env n rs v))
        (sym (put_conn_new counted fd (new_connection s env.cfg.limits w.now_us) new))
        (accept_loop-IsKept env n rs _ (accepted-IsKept env w fd s fit k) rest)

  -- What is stored of a connection that has been driven.
  after_drive-IsKept :
      (w : Worker P) (t : Turn P) (fd : ℕ) (r : Turn P × Bool)
      → IsKept w
      → t.worker ≡ w
      → Driven t r
      → (v : Worker P) × (after_drive fd (some r) ≡ some v) × IsKept v
  unfolding after_drive
  after_drive-IsKept w t fd (u, alive) k e d =
      let conns : u.worker.conns ≡ w.conns = d.worker.conns ∙ ap (λ v. v.conns) e in
      let same : u.worker.metrics.connections_closed ≡ w.metrics.connections_closed =
        d.worker.closed ∙ ap (λ v. v.metrics.connections_closed) e in
      let accs : u.worker.metrics.connections_accepted ≡ w.metrics.connections_accepted =
        d.worker.accepted ∙ ap (λ v. v.metrics.connections_accepted) e in
      let (all, l) =
        store_conn-AllSound u.worker.conns fd u.conn (subst AllSound (sym conns) k.sound) d.sound in
      let n : length u.worker.conns ≡ length w.conns = ap length conns in
      let stored : IsKept (record u.worker { conns = store_conn u.worker.conns fd u.conn }) =
        record { sound = all; balanced = omega (arith, k.balanced) } in
      (
        _,
        refl,
        if_both IsKept alive stored (
            close_connection-IsKept
              (record u.worker { conns = store_conn u.worker.conns fd u.conn }) fd stored),
      )

  on_ready-IsKept :
      (env : Env P) (w : Worker P) (fd : ℕ) (o : Option (Connection P))
      (readied : Connection P → Connection P)
      → IsKept w
      → ((c : Connection P) → o ≡ some c → IsSound (readied c))
      → (v : Worker P) × (on_ready env w fd o readied ≡ some v) × IsKept v
  unfolding on_ready
  on_ready-IsKept env w fd none readied k h = (w, refl, k)
  on_ready-IsKept env w fd (some c) readied k h =
      let t : Turn P = record { worker = w; conn = readied c; progress = false } in
      let (r, e, d) = drive-Driven env t (h c refl) in
      let (v, q, kept) = after_drive-IsKept w t fd r k refl d in
      (v, ap (after_drive fd) e ∙ q, kept)

  on_event-IsKept :
      (env : Env P) (w : Worker P) (e : Event)
      → IsKept w
      → IsDelivered env w e
      → (v : Worker P) × (on_event env e w ≡ some v) × IsKept v
  unfolding on_event on_accept
  on_event-IsKept env w woken k h = (begin_drain env w, refl, begin_drain-IsKept env w k)
  on_event-IsKept env w (acceptable rs) k h =
      if_both (λ o. (v : Worker P) × (o ≡ some v) × IsKept v) w.listening
        (on_accept env rs w, refl, accept_loop-IsKept env accept_batch rs w k h) (w, refl, k)
  on_event-IsKept env w (ready fd readable writable recvs sends sendfiles) k h =
      on_ready-IsKept env w fd (find_conn w.conns fd) _ k λ c e.
        let s = find_conn-IsSound w.conns fd c k.sound e in
        record {
          valid = s.valid;
          fits = record { within = s.fits.within; drained = s.fits.drained };
          kernel = h;
        }

  -- What the loop of a worker does, step by step: it wakes up for a batch of events, handles one that
  -- the kernel may deliver, sweeps, or closes a connection at its end.
  pub data Steps (env : Env P) : Worker P → Worker P → Type ℓ where
    here : {w : Worker P} → Steps env w w
    wakes : {w v : Worker P} (n : ℕ) → Steps env w v → Steps env w (wake_up env n v)
    handles :
        {w v x : Worker P} (e : Event)
        → Steps env w v
        → IsDelivered env v e
        → on_event env e v ≡ some x
        → Steps env w x
    sweeps : {w v : Worker P} → Steps env w v → Steps env w (sweep env v)
    closes : {w v : Worker P} (fd : ℕ) → Steps env w v → Steps env w (close_connection v fd)

  new_worker-IsKept : (now : ℕ) → IsKept {P = P} (new_worker now)
  new_worker-IsKept now = record { sound = tt; balanced = refl }

  Steps-IsKept : (env : Env P) {w v : Worker P} → Steps env w v → IsKept w → IsKept v
  Steps-IsKept env here k = k
  Steps-IsKept env (wakes n s) k =
      let h = Steps-IsKept env s k in record { sound = h.sound; balanced = h.balanced }
  Steps-IsKept env (handles {v = v} e s d q) k =
      let (x, p, h) = on_event-IsKept env v e (Steps-IsKept env s k) d in
      subst IsKept (let z : x ≡ _ = cc in z) h
  Steps-IsKept env (sweeps {v = v} s) k = sweep-IsKept env v (Steps-IsKept env s k)
  Steps-IsKept env (closes {v = v} fd s) k = close_connection-IsKept v fd (Steps-IsKept env s k)

-- In every worker that its loop reaches from the start, the input buffer and the output of each
-- connection are well formed and the connections that were closed and those that are open are as many
-- as were accepted, modulo 2 ^ 64; and any event that the kernel may deliver next is handled, with the
-- same of the worker that it leaves.
pub Steps-new_worker {ℓ} :
    {P : Type ℓ} (env : Env P) (now : ℕ) (w : Worker P) (e : Event)
    → Steps env (new_worker now) w
    → IsDelivered env w e
    → IsKept w × ((v : Worker P) × (on_event env e w ≡ some v) × IsKept v)
Steps-new_worker env now w e s d =
    let k = Steps-IsKept env s (new_worker-IsKept now) in (k, on_event-IsKept env w e k d)
