-- ===== src/Server/Timers/Sweeping.antt =====
-- Which connections a sweep keeps.
use mathlib.Core.Path.{subst₂}
use http.Base.{
  ℕ, ◌≤◌, ◌≡◌, ◌≢◌, ◌↔◌, refl, sym, subst, ◌⊎◌, inl, inr, true, false, List, [], ◌∷◌, arith,
}
use http.Parser.{headers_complete}
use http.Metrics.{WorkerMetrics}
use http.Server.{Connection, Worker, Env, to_us}
use http.Server.Processing.{since}
use http.Server.Timers.{
  Verdict, kept, dropped, timed_out, is_idle, judge, count_verdict, sweep_loop, sweep,
}

module _ {ℓ} {P : Type ℓ} where
  -- The connection of that descriptor is in the list.
  pub data Holds (fd : ℕ) (c : Connection P) : List (ℕ × Connection P) → Type ℓ where
    at_front : {cs : List (ℕ × Connection P)} → Holds fd c ((fd, c) ∷ cs)
    behind :
        {x : ℕ × Connection P} {cs : List (ℕ × Connection P)} → Holds fd c cs → Holds fd c (x ∷ cs)

  -- A connection is not idle while the worker drains, the head of its request is not late, and it has
  -- not been quiet for too long.
  pub record MayStay (env : Env P) (w : Worker P) (c : Connection P) : Type 0 where
    pub busy : w.draining ≡ true → is_idle c ≡ false
    pub head_in_time :
        c.request_start_us ≢ 0
        → headers_complete c.parser ≡ false
        → since w.now_us c.request_start_us ≤ to_us env.cfg.header_timeout
    pub active : since w.now_us c.last_active_us ≤ to_us env.cfg.idle_timeout

  judge-MayStay :
      (env : Env P) (w : Worker P) (c : Connection P) → judge env w c ≡ kept → MayStay env w c
  unfolding judge
  judge-MayStay env w c e = record {
    busy = ground arith;
    head_in_time = ground arith;
    active = ground arith;
  }

  MayStay-judge :
      (env : Env P) (w : Worker P) (c : Connection P) → MayStay env w c → judge env w c ≡ kept
  unfolding judge
  MayStay-judge env w c m = ground (arith, m.busy, m.head_in_time, m.active)

  abbrev stays :
      Env P → Worker P → List (ℕ × Connection P) → WorkerMetrics → List (ℕ × Connection P)
  stays env w cs m = (sweep_loop env w cs m).0

  -- A verdict and what stays of the rest.
  abbrev judged :
      Env P
      → Worker P
      → ℕ
      → Connection P
      → List (ℕ × Connection P)
      → WorkerMetrics
      → Verdict
      → List (ℕ × Connection P)
  judged env w fd c cs m v = elim v as (λ _. List (ℕ × Connection P)) [
    | kept ↦ (fd, c) ∷ stays env w cs (count_verdict m v)
    | _ ↦ stays env w cs (count_verdict m v)
  ]

  Holds_front :
      (fd fd' : ℕ) (c c' : Connection P) (cs : List (ℕ × Connection P))
      → Holds fd c ((fd', c') ∷ cs)
      → ((fd ≡ fd') × (c ≡ c')) ⊎ Holds fd c cs
  Holds_front fd fd' c c' cs at_front = inl (refl, refl)
  Holds_front fd fd' c c' cs (behind h) = inr h

  Holds_none {κ} : {A : Type κ} {fd : ℕ} {c : Connection P} → Holds fd c [] → A
  Holds_none h = elim h [ ]

  sweep_loop-Holds :
      (env : Env P) (w : Worker P) (cs : List (ℕ × Connection P)) (m : WorkerMetrics) (fd : ℕ)
      (c : Connection P)
      → Holds fd c (stays env w cs m)
      → Holds fd c cs × (judge env w c ≡ kept)
  unfolding sweep_loop
  sweep_loop-Holds env w [] m fd c h = Holds_none h
  sweep_loop-Holds env w ((key, d) ∷ cs) m fd c h =
      of_verdict (judge env w d) refl h λ m' g. sweep_loop-Holds env w cs m' fd c g
    where
      of_verdict :
          (v : Verdict)
          → judge env w d ≡ v
          → Holds fd c (judged env w key d cs m v)
          → ((m' : WorkerMetrics)
              → Holds fd c (stays env w cs m')
              → Holds fd c cs × (judge env w c ≡ kept))
          → Holds fd c ((key, d) ∷ cs) × (judge env w c ≡ kept)
      of_verdict kept e g ih = elim (Holds_front fd key c d _ g) [
        | inl (p, q) ↦ (
          subst₂ (λ k x. Holds k x ((key, d) ∷ cs)) (sym p) (sym q) at_front,
          subst (λ x. judge env w x ≡ kept) (sym q) e,
        )
        | inr r ↦ let (a, b) = ih (count_verdict m kept) r in (behind a, b)
      ]
      of_verdict dropped e g ih = let (a, b) = ih (count_verdict m dropped) g in (behind a, b)
      of_verdict timed_out e g ih = let (a, b) = ih (count_verdict m timed_out) g in (behind a, b)

  sweep_loop_holds :
      (env : Env P) (w : Worker P) (cs : List (ℕ × Connection P)) (m : WorkerMetrics) (fd : ℕ)
      (c : Connection P)
      → Holds fd c cs
      → judge env w c ≡ kept
      → Holds fd c (stays env w cs m)
  unfolding sweep_loop
  sweep_loop_holds env w [] m fd c h e = Holds_none h
  sweep_loop_holds env w ((key, d) ∷ cs) m fd c h e =
      of_verdict (judge env w d) refl λ m' g. sweep_loop_holds env w cs m' fd c g e
    where
      of_verdict :
          (v : Verdict)
          → judge env w d ≡ v
          → ((m' : WorkerMetrics) → Holds fd c cs → Holds fd c (stays env w cs m'))
          → Holds fd c (judged env w key d cs m v)
      of_verdict kept q ih = elim (Holds_front fd key c d cs h) [
        | inl (p, r) ↦
            subst₂ (λ k x. Holds k x ((key, d) ∷ stays env w cs (count_verdict m kept))) (sym p)
              (sym r) at_front
        | inr g ↦ behind (ih (count_verdict m kept) g)
      ]
      of_verdict dropped q ih = elim (Holds_front fd key c d cs h) [
        | inl (p, r) ↦ absurd (let z = subst (λ x. judge env w x ≡ kept) r e in cc)
        | inr g ↦ ih (count_verdict m dropped) g
      ]
      of_verdict timed_out q ih = elim (Holds_front fd key c d cs h) [
        | inl (p, r) ↦ absurd (let z = subst (λ x. judge env w x ≡ kept) r e in cc)
        | inr g ↦ ih (count_verdict m timed_out) g
      ]

-- A sweep keeps exactly the connections that may stay: those that are not idle while the worker drains,
-- whose request's head is not late, and that have not been quiet for longer than the idle timeout.
pub sweep_iff {ℓ} :
    {P : Type ℓ} (env : Env P) (w : Worker P) (fd : ℕ) (c : Connection P)
    → Holds fd c (sweep env w).conns ↔ (Holds fd c w.conns × MayStay env w c)
unfolding sweep
sweep_iff env w fd c = (
  λ h. let (a, e) = sweep_loop-Holds env w w.conns w.metrics fd c h in (a, judge-MayStay env w c e),
  λ h. sweep_loop_holds env w w.conns w.metrics fd c h.0 (MayStay-judge env w c h.1),
)
