-- ===== src/Server/Events/Keeping.antt =====
-- What a worker keeps: each connection is well formed, and each that was accepted is open or counted as
-- closed.
use http.Base.{
  ℕ, suc, ◌+◌, ◌%◌, ◌^◌, ◌≡◌, ◌≢◌, refl, ap, sym, subst, inl, inr, List, [], ◌∷◌, Option, none,
  some, ◌==◌, if_both, length, arith, Bool-cases,
}
use http.Metrics.{WorkerMetrics, bump}
use http.Server.{Connection, Worker, Env}
use http.Server.Steps.{IsSound}
use http.Server.Timers.{
  Verdict, kept, dropped, timed_out, judge, count_verdict, sweep_loop, sweep, find_conn, erase_conn,
  close_connection, begin_drain,
}
use http.Server.Events.{store_conn}

-- The counters agree with the connections that are open, modulo 2 ^ 64.
abbrev pub Balanced : WorkerMetrics → ℕ → Type 0
Balanced m n = (m.connections_closed + n) % 2 ^ 64 ≡ m.connections_accepted % 2 ^ 64

-- One connection less and one closing more.
Balanced-closed :
    (m : WorkerMetrics) (n : ℕ)
    → Balanced m (suc n)
    → Balanced (record m { connections_closed = bump m.connections_closed 1 }) n
unfolding bump
Balanced-closed m n h = omega arith

-- The verdict of a connection is counted.
count_verdict-Balanced :
    (m : WorkerMetrics) (n : ℕ) (v : Verdict)
    → v ≢ kept
    → Balanced m (suc n)
    → Balanced (count_verdict m v) n
unfolding count_verdict
count_verdict-Balanced m n kept k h = absurd (k refl)
count_verdict-Balanced m n dropped k h = Balanced-closed m n h
count_verdict-Balanced m n timed_out k h = Balanced-closed m n h

module _ {ℓ} {P : Type ℓ} where
  abbrev pub AllSound : List (ℕ × Connection P) → Type 0
  AllSound [] = Unit
  AllSound ((fd, c) ∷ cs) = IsSound c × AllSound cs

  pub record IsKept (w : Worker P) : Type ℓ where
    pub sound : AllSound w.conns
    pub balanced : Balanced w.metrics (length w.conns)

  pub find_conn-IsSound :
      (cs : List (ℕ × Connection P)) (fd : ℕ) (c : Connection P)
      → AllSound cs
      → find_conn cs fd ≡ some c
      → IsSound c
  unfolding find_conn
  find_conn-IsSound [] fd c h e = absurd (cc)
  find_conn-IsSound ((key, d) ∷ cs) fd c h e = elim (Bool-cases (key == fd)) [
    | inl q ↦ let z : d ≡ c = ground (arith, q) in subst IsSound z h.0
    | inr q ↦ find_conn-IsSound cs fd c h.1 (ground (arith, q))
  ]

  pub store_conn-AllSound :
      (cs : List (ℕ × Connection P)) (fd : ℕ) (c : Connection P)
      → AllSound cs
      → IsSound c
      → AllSound (store_conn cs fd c) × (length (store_conn cs fd c) ≡ length cs)
  unfolding store_conn
  store_conn-AllSound [] fd c h s = (tt, refl)
  store_conn-AllSound ((key, d) ∷ cs) fd c h s =
      let (a, l) = store_conn-AllSound cs fd c h.1 s in
      if_both (λ xs. AllSound xs × (length xs ≡ suc (length cs))) (key == fd) ((s, h.1), refl)
        ((h.0, a), ap suc l)

  erase_conn-AllSound :
      (cs : List (ℕ × Connection P)) (fd : ℕ) (c : Connection P)
      → AllSound cs
      → find_conn cs fd ≡ some c
      → AllSound (erase_conn cs fd) × (suc (length (erase_conn cs fd)) ≡ length cs)
  unfolding erase_conn find_conn
  erase_conn-AllSound [] fd c h e = absurd (cc)
  erase_conn-AllSound ((key, d) ∷ cs) fd c h e = elim (Bool-cases (key == fd)) [
    | inl q ↦ rw q (h.1, refl)
    | inr q ↦
        rw q
          (let (a, l) = erase_conn-AllSound cs fd c h.1 (ground (arith, q)) in ((h.0, a), ap suc l))
  ]

  pub close_connection-IsKept : (w : Worker P) (fd : ℕ) → IsKept w → IsKept (close_connection w fd)
  unfolding close_connection
  close_connection-IsKept w fd k = of_found (find_conn w.conns fd) refl
    where
      of_found :
          (o : Option (Connection P))
          → find_conn w.conns fd ≡ o
          → IsKept (elim o [
            | none ↦ w
            | some c ↦ record w {
              conns = erase_conn w.conns fd;
              metrics = record w.metrics {
                connections_closed = bump w.metrics.connections_closed 1;
              };
            }
          ])
      of_found none e = k
      of_found (some c) e =
          let (a, l) = erase_conn-AllSound w.conns fd c k.sound e in
          record {
            sound = a;
            balanced =
                Balanced-closed w.metrics (length (erase_conn w.conns fd))
                  (subst (Balanced w.metrics) (sym l) k.balanced);
          }

  -- With so many connections that have already stayed.
  sweep_loop-Balanced :
      (env : Env P) (w : Worker P) (cs : List (ℕ × Connection P)) (m : WorkerMetrics) (n : ℕ)
      → AllSound cs
      → Balanced m (n + length cs)
      → AllSound (sweep_loop env w cs m).0
        × Balanced (sweep_loop env w cs m).1 (n + length (sweep_loop env w cs m).0)
  unfolding sweep_loop count_verdict
  sweep_loop-Balanced env w [] m n h b = (tt, b)
  sweep_loop-Balanced env w ((fd, c) ∷ cs) m n h b =
      of_verdict (judge env w c) λ m' k b'. sweep_loop-Balanced env w cs m' k h.1 b'
    where
      of_verdict :
          (v : Verdict)
          → ((m' : WorkerMetrics) (k : ℕ)
              → Balanced m' (k + length cs)
              → AllSound (sweep_loop env w cs m').0
                × Balanced (sweep_loop env w cs m').1 (k + length (sweep_loop env w cs m').0))
          → let (stay, m') = sweep_loop env w cs (count_verdict m v) in
            let rest : List (ℕ × Connection P) = elim v [ kept ↦ (fd, c) ∷ stay | _ ↦ stay ] in
            AllSound rest × Balanced m' (n + length rest)
      of_verdict kept ih =
          let (a, e) = ih m (suc n) (subst (Balanced m) (omega arith) b) in
          ((h.0, a), subst (Balanced (sweep_loop env w cs m).1) (omega arith) e)
      of_verdict dropped ih = ih (count_verdict m dropped) n (
          count_verdict-Balanced m (n + length cs) dropped (λ e. cc)
            (subst (Balanced m) (omega arith) b))
      of_verdict timed_out ih = ih (count_verdict m timed_out) n (
          count_verdict-Balanced m (n + length cs) timed_out (λ e. cc)
            (subst (Balanced m) (omega arith) b))

  pub sweep-IsKept : (env : Env P) (w : Worker P) → IsKept w → IsKept (sweep env w)
  unfolding sweep
  sweep-IsKept env w k =
      let (a, b) =
        sweep_loop-Balanced env w w.conns w.metrics 0 k.sound
          (subst (Balanced w.metrics) (omega arith) k.balanced) in
      record {
        sound = a;
        balanced = subst (Balanced (sweep_loop env w w.conns w.metrics).1) (omega arith) b;
      }

  pub begin_drain-IsKept : (env : Env P) (w : Worker P) → IsKept w → IsKept (begin_drain env w)
  unfolding begin_drain
  begin_drain-IsKept env w k =
      if_both IsKept w.draining k (record { sound = k.sound; balanced = k.balanced })
