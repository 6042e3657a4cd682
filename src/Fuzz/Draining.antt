-- ===== src/Fuzz/Draining.antt =====
-- The inner loop of `run` as a relation: it ends, and it never traps.
use http.Base.{
  ℕ, zero, suc, ◌+◌, ◌≤◌, ◌<◌, true, false, List, [], ◌∷◌, ◌++◌, ◌≡◌, refl, subst, some, Bytes,
  length, drop, length-drop, arith, Bool-cases, inl, inr, le→ltb,
}
use http.Request.{status_for}
use http.Parser.{
  State, RequestParser, request_line, headers, body, chunk_size, chunk_data, chunk_data_end,
  trailers, done, error, reset, is_error, is_done,
}
use http.Parser.Feed.{feed}
use http.Parser.Feed.Halting.{feed_total, feed_within}
use http.Parser.Feed.Unused.{feed-unused}
use http.Parser.Feed.Bodies.{Room, HasRoom}
use http.Parser.Feed.Rooms.{feed-HasRoom}
use http.Fuzz.{Drained, over, waiting, returned, digest, after_feed, drain_loop, drain, push_digest}

-- What the inner loop does with the parser, `buf` and the digests, and what it leaves.
pub data Drains : RequestParser → Bytes → List Bytes → Drained → Type 0 where
  fails :
      {p q : RequestParser} {buf : Bytes} {ds : List Bytes} {n : ℕ}
      → feed p buf ≡ some (q, n)
      → q.state ≡ error
      → Drains p buf ds
          (over (returned (record { requests = ds; final_status = status_for q.error_code })))
  breaks :
      {p q : RequestParser} {buf : Bytes} {ds : List Bytes} {n : ℕ}
      → feed p buf ≡ some (q, n)
      → is_error q.state ≡ false
      → is_done q.state ≡ false
      → Drains p buf ds (waiting q (drop n buf) ds)
  takes :
      {p q : RequestParser} {buf : Bytes} {ds : List Bytes} {n : ℕ} {d : Drained}
      → feed p buf ≡ some (q, n)
      → q.state ≡ done
      → Drains (reset q) (drop n buf) (ds ++ (digest q.req ∷ [])) d
      → Drains p buf ds d

is_error-error : (s : State) → is_error s ≡ true → s ≡ error
is_error-error request_line e = absurd (cc)
is_error-error headers e = absurd (cc)
is_error-error body e = absurd (cc)
is_error-error chunk_size e = absurd (cc)
is_error-error chunk_data e = absurd (cc)
is_error-error chunk_data_end e = absurd (cc)
is_error-error trailers e = absurd (cc)
is_error-error done e = absurd (cc)
is_error-error error e = refl

is_done-done : (s : State) → is_done s ≡ true → s ≡ done
is_done-done request_line e = absurd (cc)
is_done-done headers e = absurd (cc)
is_done-done body e = absurd (cc)
is_done-done chunk_size e = absurd (cc)
is_done-done chunk_data e = absurd (cc)
is_done-done chunk_data_end e = absurd (cc)
is_done-done trailers e = absurd (cc)
is_done-done done e = refl
is_done-done error e = absurd (cc)

-- The inner loop returns, as the relation says.
abbrev Drainable : ℕ → RequestParser → Bytes → List Bytes → Type 0
Drainable fuel p buf ds = (d : Drained) × (drain_loop fuel p buf ds ≡ some d) × Drains p buf ds d

-- The body of a request that is done is within its limit.
done-within : (q : RequestParser) → q.state ≡ done → HasRoom 4096 q → length q.req.body ≤ 4096
done-within q e r = subst (λ s. Room s (length q.req.body) q.remaining 4096) e r.1

-- A turn of the loop, given the turns after it.
drain_turn :
    (fuel : ℕ) (p q : RequestParser) (buf : Bytes) (ds : List Bytes) (n : ℕ)
    → feed p buf ≡ some (q, n)
    → HasRoom 4096 p
    → (q.state ≡ done → Drainable fuel (reset q) (drop n buf) (ds ++ (digest q.req ∷ [])))
    → Drainable (suc fuel) p buf ds
unfolding drain_loop after_feed push_digest
drain_turn fuel p q buf ds n e room later =
    let used = le→ltb (length buf) n (feed_within p q buf n e) in
    elim (Bool-cases (is_error q.state)) [
      | inl f ↦
          (_, rw (e, drain_loop, used, after_feed, f) refl, fails e (is_error-error q.state f))
      | inr f ↦ elim (Bool-cases (is_done q.state)) [
        | inr g ↦ (_, rw (e, drain_loop, used, after_feed, f, g) refl, breaks e f g)
        | inl g ↦
            let h = is_done-done q.state g in
            let (d, run, drains) = later h in
            let small =
              le→ltb 4096 (length q.req.body)
                (done-within q h (feed-HasRoom 4096 p q buf n (omega arith) room e)) in
            (
              d,
              rw (e, drain_loop, used, after_feed, f, g, small, push_digest) run,
              takes e h drains,
            )
      ]
    ]

-- The room is kept when a request is taken off the parser.
pub reset-HasRoom :
    (p q : RequestParser) (buf : Bytes) (n : ℕ)
    → HasRoom 4096 p
    → feed p buf ≡ some (q, n)
    → HasRoom 4096 (reset q)
unfolding reset
reset-HasRoom p q buf n room e = ((feed-HasRoom 4096 p q buf n (omega arith) room e).0, refl)

-- A request that starts at the parser's start uses up a byte.
done-uses :
    (p q : RequestParser) (buf : Bytes) (n : ℕ)
    → p.state ≡ request_line
    → feed p buf ≡ some (q, n)
    → q.state ≡ done
    → 1 ≤ n
done-uses p q buf zero s e d = elim (feed-unused p q buf s e) [
  | inl h ↦ absurd (cc)
  | inr h ↦ absurd (cc)
]
done-uses p q buf (suc n) s e d = omega arith

drain_loop-Drains :
    (fuel : ℕ) (p : RequestParser) (buf : Bytes) (ds : List Bytes)
    → p.state ≡ request_line
    → length buf < fuel
    → HasRoom 4096 p
    → Drainable fuel p buf ds
unfolding reset
drain_loop-Drains zero p buf ds s l room = absurd (omega (arith, l))
drain_loop-Drains (suc fuel) p buf ds s l room =
    let (q, n, e) = feed_total p buf in
    drain_turn fuel p q buf ds n e room λ h.
      drain_loop-Drains fuel (reset q) (drop n buf) _ refl
        (omega (arith, l, length-drop n buf, done-uses p q buf n s e h, feed_within p q buf n e))
        (reset-HasRoom p q buf n room e)

-- The inner loop returns, what the relation says.
pub drain-Drains :
    (p : RequestParser) (buf : Bytes) (ds : List Bytes)
    → HasRoom 4096 p
    → (d : Drained) × (drain p buf ds ≡ some d) × Drains p buf ds d
unfolding drain reset
drain-Drains p buf ds room =
    let (q, n, e) = feed_total p buf in
    let (d, run, drains) = drain_turn (length buf + 1) p q buf ds n e room λ h.
      drain_loop-Drains _ (reset q) (drop n buf) _ refl (omega (arith, length-drop n buf))
        (reset-HasRoom p q buf n room e) in
    let two : length buf + 2 ≡ suc (length buf + 1) = omega arith in (d, rw two run, drains)
