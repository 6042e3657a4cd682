-- ===== src/Parser/Feed/Absorb.antt =====
-- A body that is read in two rounds, and in one.
use http.Base.{
  ℕ, suc, ◌+◌, ◌-◌, ◌≤◌, ◌<◌, [], ◌∷◌, ◌++◌, ◌≡◌, ap, ◌∙◌, arith, Bytes, length, length-append,
  drop, take, min, take_all, take-append_of_le, append_assoc,
}
use http.Parser.{State, RequestParser}
use http.Parser.Feed.{Round, halt, next, at_body}

-- The round after one that used up `k` bytes, counted from the start of both.
abbrev pub shift : ℕ → Round → Round
shift k (halt n q) = halt (k + n) q
shift k (next n q) = next (k + n) q

-- A body takes all of a piece that is shorter than what is missing.
unfoldable pub absorb : RequestParser → Bytes → RequestParser
absorb p a = record p {
  req = record p.req { body = p.req.body ++ a };
  remaining = p.remaining - length a;
}

take_append_long : (a b : Bytes) (n : ℕ) → take (length a + n) (a ++ b) ≡ a ++ take n b
take_append_long [] b n = ap (λ k. take k b) (omega arith)
take_append_long (x ∷ a) b n =
    ap (λ k. take k (x ∷ (a ++ b)))
      (let e : suc (length a) + n ≡ suc (length a + n) = omega arith in e)
    ∙ ap (◌∷◌ x) (take_append_long a b n)

pub drop_append_long : (a b : Bytes) (n : ℕ) → drop (length a + n) (a ++ b) ≡ drop n b
drop_append_long [] b n = ap (λ k. drop k b) (omega arith)
drop_append_long (x ∷ a) b n =
    ap (λ k. drop k (x ∷ (a ++ b)))
      (let e : suc (length a) + n ≡ suc (length a + n) = omega arith in e)
    ∙ drop_append_long a b n

pub at_body-short :
    (p : RequestParser) (s : State) (c : ℕ) (a b : Bytes)
    → p.remaining ≤ length (c ∷ a)
    → at_body p s ((c ∷ a) ++ b) ≡ at_body p s (c ∷ a)
unfolding at_body
at_body-short p s c a b h =
    let e : min (length (c ∷ (a ++ b))) p.remaining ≡ min (length (c ∷ a)) p.remaining =
      omega (arith, length-append a b) in
    rw e (rw (take-append_of_le (min (length (c ∷ a)) p.remaining) (c ∷ a) b (omega arith)))

pub at_body-absorb :
    (p : RequestParser) (s : State) (c : ℕ) (a : Bytes)
    → length (c ∷ a) < p.remaining
    → at_body p s (c ∷ a) ≡ next (length (c ∷ a)) (absorb p (c ∷ a))
unfolding at_body absorb
at_body-absorb p s c a h =
    let e : min (length (c ∷ a)) p.remaining ≡ length (c ∷ a) = omega arith in
    rw e (rw (take_all (length (c ∷ a)) (c ∷ a) (omega arith)) (ground arith))

pub at_body-shift :
    (p : RequestParser) (s : State) (c : ℕ) (a : Bytes) (d : ℕ) (b : Bytes)
    → length (c ∷ a) < p.remaining
    → at_body p s ((c ∷ a) ++ d ∷ b) ≡ shift (length (c ∷ a)) (at_body (absorb p (c ∷ a)) s (d ∷ b))
unfolding at_body absorb
at_body-shift p s c a d b h =
    let n = min (length (d ∷ b)) (p.remaining - length (c ∷ a)) in
    let used : min (length (c ∷ (a ++ d ∷ b))) p.remaining ≡ length (c ∷ a) + n =
      omega (arith, length-append a (d ∷ b)) in
    let left : p.remaining - (length (c ∷ a) + n) ≡ p.remaining - length (c ∷ a) - n =
      omega arith in
    rw (used, left, take_append_long (c ∷ a) (d ∷ b) n) (rw append_assoc)
