-- ===== src/Parser/Feed/Unused.antt =====
-- A call of `feed` before a request that uses no byte waits as it is, or it fails.
use http.Base.{ℕ, ◌+◌, ◌*◌, ◌≡◌, refl, ap, sym, subst, inl, inr, ◌⊎◌, some, arith, Bytes, length}
use http.Parser.{RequestParser, request_line, error}
use http.Parser.Feed.{halt, round_in, round, feed}
use http.Parser.Feed.Halting.{Fed, stops, goes, feed_iff, round_in-Advances, busy, Advances}
use http.Parser.Feed.Growth.{Final, at_request_line-Final}

-- The state at the start of a request.
round-Final : (p : RequestParser) (rest : Bytes) → p.state ≡ request_line → Final p (round p rest)
unfolding round_in
round-Final p rest e =
    subst (λ s. Final p (round_in s p rest)) (sym e) (at_request_line-Final p rest)

Fed-unused :
    (p q : RequestParser) (rest : Bytes) (n : ℕ)
    → p.state ≡ request_line
    → n ≡ 0
    → Fed p rest q n
    → (q ≡ p) ⊎ (q.state ≡ error)
Fed-unused p q rest n e z (stops h) = elim (subst (Final p) h (round-Final p rest e)).0 [
  | inl w ↦ inl w.0
  | inr f ↦ inr f
]
Fed-unused p q rest n e z (goes {q = r} k m h f j) =
    let m0 = 2 * length rest + busy p.state in
    let a = subst (Advances m0 rest) h (round_in-Advances p.state p rest refl) in
    let idle : busy p.state ≡ 0 = ap busy e in absurd (omega (arith, a.0, a.1))

-- A call of `feed` before a request that uses no byte leaves the parser as it is, or in its error
-- state.
pub feed-unused :
    (p q : RequestParser) (rest : Bytes)
    → p.state ≡ request_line
    → feed p rest ≡ some (q, 0)
    → (q ≡ p) ⊎ (q.state ≡ error)
feed-unused p q rest e h = Fed-unused p q rest 0 e refl ((feed_iff p rest q 0).0 h)

error_stays : (p : RequestParser) (rest : Bytes) → p.state ≡ error → round p rest ≡ halt 0 p
unfolding round_in
error_stays p rest e = subst (λ s. round_in s p rest ≡ halt 0 p) (sym e) refl

Fed-failed :
    (p q : RequestParser) (rest : Bytes) (n : ℕ) → round p rest ≡ halt 0 p → Fed p rest q n → q ≡ p
Fed-failed p q rest n s (stops w) = cc
Fed-failed p q rest n s (goes k m w f j) = absurd (cc)

-- In the error state nothing more is read.
pub feed-failed :
    (p q : RequestParser) (rest : Bytes) (n : ℕ)
    → p.state ≡ error
    → feed p rest ≡ some (q, n)
    → q ≡ p
feed-failed p q rest n e h =
    Fed-failed p q rest n (error_stays p rest e) ((feed_iff p rest q n).0 h)
