-- ===== src/Parser/Feed/Splitting.antt =====
-- How the input is cut into pieces does not matter: what `feed` makes of two pieces, where the
-- unused tail of the first stands in front of the second, it makes of both at once.
use native.Mathlib.Nat.{le_refl}
use http.Base.{
  ℕ, ◌+◌, ◌≤◌, ◌<◌, true, false, [], ◌∷◌, ◌++◌, ◌≡◌, refl, ap, sym, ◌∙◌, inl, inr, ◌⊎◌, some,
  append-nil, drop-drop, arith, Bytes, Bool-cases, length, length-drop, drop, drop_all,
  drop-append_of_le, leb,
}
use http.Parser.{
  State, RequestParser, request_line, headers, body, chunk_size, chunk_data, chunk_data_end,
  trailers, done, error,
}
use http.Parser.Feed.{halt, next, at_body, round_in, round, feed}
use http.Parser.Feed.Halting.{Fed, stops, goes, round_within, feed_iff}
use http.Parser.Feed.Growth.{
  SizesFit, round_in-Final, Grown, at_request_line-Grown, at_headers-Grown, at_chunk_size-Grown,
  at_chunk_data_end-Grown,
}
use http.Parser.Feed.Absorb.{
  shift, drop_append_long, absorb, at_body-short, at_body-absorb, at_body-shift,
}

-- How a round over `a` fits with one over `a ++ b`: it waits, or the two agree, or a body takes all
-- of `a` and the round over `b` does the rest.
data Fits (p : RequestParser) (a b : Bytes) : Type 0 where
  waits : round p a ≡ halt 0 p → Fits p a b
  agrees : round p (a ++ b) ≡ round p a → Fits p a b
  absorbs :
      (q : RequestParser)
      → round p a ≡ next (length a) q
      → round q [] ≡ halt 0 q
      → (b ≡ []) ⊎ (round p (a ++ b) ≡ shift (length a) (round q b))
      → Fits p a b

at_state :
    (p : RequestParser) (s : State) (rest : Bytes) → p.state ≡ s → round p rest ≡ round_in s p rest
at_state p s rest e = ap (λ t. round_in t p rest) e

Grown-Fits :
    (p : RequestParser) (s : State) (a b : Bytes)
    → p.state ≡ s
    → Grown p (round_in s p) a b
    → Fits p a b
Grown-Fits p s a b e (inl h) = waits (at_state p s a e ∙ h)
Grown-Fits p s a b e (inr h) = agrees (at_state p s (a ++ b) e ∙ h ∙ sym (at_state p s a e))

-- The two states that read a body, with the state that follows.
data Reads : State → State → Type 0 where
  whole : Reads body done
  chunk : Reads chunk_data chunk_data_end

at_reading :
    {s after : State} (p : RequestParser) (rest : Bytes)
    → Reads s after
    → p.state ≡ s
    → round p rest ≡ at_body p after rest
unfolding round_in
at_reading p rest whole e = at_state p body rest e
at_reading p rest chunk e = at_state p chunk_data rest e

at_body_nil : (p : RequestParser) (after : State) → at_body p after [] ≡ halt 0 p
unfolding at_body
at_body_nil p after = refl

at_absorbed :
    {s after : State} (p : RequestParser) (a b : Bytes)
    → Reads s after
    → p.state ≡ s
    → round (absorb p a) b ≡ at_body (absorb p a) after b
unfolding absorb
at_absorbed p a b r e = at_reading (absorb p a) b r e

long_body :
    {s after : State} (p : RequestParser) (c : ℕ) (a b : Bytes)
    → Reads s after
    → p.state ≡ s
    → length (c ∷ a) < p.remaining
    → (b ≡ []) ⊎ (round p ((c ∷ a) ++ b) ≡ shift (length (c ∷ a)) (round (absorb p (c ∷ a)) b))
long_body p c a [] r e h = inl refl
long_body {after = after} p c a (d ∷ b) r e h = inr (
    at_reading p ((c ∷ a) ++ d ∷ b) r e
    ∙ at_body-shift p after c a d b h
    ∙ ap (shift (length (c ∷ a))) (sym (at_absorbed p (c ∷ a) (d ∷ b) r e)))

reading-Fits :
    {s after : State} (p : RequestParser) (a b : Bytes) → Reads s after → p.state ≡ s → Fits p a b
reading-Fits {after = after} p [] b r e = waits (at_reading p [] r e ∙ at_body_nil p after)
reading-Fits {after = after} p (c ∷ a) b r e =
    elim (Bool-cases (leb p.remaining (length (c ∷ a)))) [
      | inl h ↦ agrees (
          at_reading p ((c ∷ a) ++ b) r e
          ∙ at_body-short p after c a b (ground arith)
          ∙ sym (at_reading p (c ∷ a) r e))
      | inr h ↦
          absorbs (absorb p (c ∷ a))
            (at_reading p (c ∷ a) r e ∙ at_body-absorb p after c a (ground arith))
            (at_absorbed p (c ∷ a) [] r e ∙ at_body_nil (absorb p (c ∷ a)) after)
            (long_body p c a b r e (ground arith))
    ]

state-Fits :
    (s : State) (p : RequestParser) (a b : Bytes)
    → SizesFit p (length a + length b)
    → p.state ≡ s
    → Fits p a b
unfolding round_in
state-Fits request_line p a b f e = Grown-Fits p _ a b e (at_request_line-Grown p a b f)
state-Fits headers p a b f e = Grown-Fits p _ a b e (at_headers-Grown p a b f true)
state-Fits trailers p a b f e = Grown-Fits p _ a b e (at_headers-Grown p a b f false)
state-Fits body p a b f e = reading-Fits p a b whole e
state-Fits chunk_data p a b f e = reading-Fits p a b chunk e
state-Fits chunk_data_end p a b f e = Grown-Fits p _ a b e (at_chunk_data_end-Grown p a b f)
state-Fits chunk_size p a b f e = Grown-Fits p _ a b e (at_chunk_size-Grown p a b f)
state-Fits done p a b f e = Grown-Fits p _ a b e (inl refl)
state-Fits error p a b f e = Grown-Fits p _ a b e (inl refl)

Fed-waiting :
    {p q : RequestParser} {rest : Bytes} {n : ℕ}
    → round p rest ≡ halt 0 p
    → Fed p rest q n
    → (q ≡ p) × (n ≡ 0)
Fed-waiting w (stops e) = (cc, cc)
Fed-waiting w (goes n m e f k) = absurd (cc)

-- A parser in the error state stays as it is.
Fed-error :
    (p q : RequestParser) (rest : Bytes) (n : ℕ)
    → p.state ≡ error
    → Fed p rest q n
    → (q ≡ p) × (n ≡ 0)
unfolding round_in
Fed-error p q rest n e f = Fed-waiting (at_state p error rest e) f

resume :
    (p q r : RequestParser) (a b : Bytes) (n m : ℕ)
    → q ≡ p
    → n ≡ 0
    → Fed q (drop n a ++ b) r m
    → Fed p (a ++ b) r (n + m)
resume p q r a b n m e z f = let total : n + m ≡ m = omega arith in rw total (rw (e, z) at f)

drop_append_self : (a b : Bytes) → drop (length a) (a ++ b) ≡ b
drop_append_self [] b = refl
drop_append_self (x ∷ a) b = drop_append_self a b

absorbed :
    (p q r : RequestParser) (a b : Bytes) (m : ℕ)
    → round p a ≡ next (length a) q
    → (b ≡ []) ⊎ (round p (a ++ b) ≡ shift (length a) (round q b))
    → Fed q b r m
    → Fed p (a ++ b) r (length a + m)
absorbed p q r a b m e (inl h) f =
    goes (length a) m (ap (round p) (ap (◌++◌ a) h ∙ append-nil a) ∙ e)
      (rw (drop_append_self a b) f) refl
absorbed p q r a b m e (inr h) (stops e') = stops (h ∙ ap (shift (length a)) e')
absorbed p q r a b m e (inr h) (goes n k e' f j) =
    goes (length a + n) k (h ∙ ap (shift (length a)) e') (rw (drop_append_long a b n) f)
      (omega arith)

fits_kept :
    (p q : RequestParser) (a b : Bytes) (n : ℕ)
    → SizesFit p (length a + length b)
    → n ≤ length a
    → q.limits ≡ p.limits
    → q.header_bytes ≤ p.header_bytes + n
    → SizesFit q (length (drop n a) + length b)
fits_kept p q a b n fits within l h = record {
  line_fits = rw l (fits.line_fits);
  chunk_line_fits = rw l (fits.chunk_line_fits);
  header_fits = omega (arith, length-drop n a, fits.header_fits);
}

fits_after :
    (p q : RequestParser) (a b : Bytes) (n : ℕ)
    → SizesFit p (length a + length b)
    → round p a ≡ next n q
    → SizesFit q (length (drop n a) + length b)
fits_after p q a b n fits e =
    let kept = rw e at (round_in-Final p.state p a refl) in
    fits_kept p q a b n fits (round_within p a (inr e)) kept.0 kept.1

fits-Fed :
    {p q : RequestParser} {a : Bytes} {n : ℕ} (b : Bytes)
    → SizesFit p (length a + length b)
    → Fed p a q n
    → SizesFit q (length (drop n a) + length b)
fits-Fed {p} {q} {a} {n} b fits (stops e) =
    let kept = rw e at (round_in-Final p.state p a refl) in
    fits_kept p q a b n fits (round_within p a (inl e)) kept.1 kept.2
fits-Fed {p} {q} {a} {n} b fits (goes {q = p'} k m e f j) =
    rw j (rw (← drop-drop k m a) (fits-Fed b (fits_after p p' a b k fits e) f))

stops_both :
    (p q r : RequestParser) (a b : Bytes) (n m : ℕ)
    → SizesFit p (length a + length b)
    → round p a ≡ halt n q
    → Fed q (drop n a ++ b) r m
    → Fed p (a ++ b) r (n + m)
stops_both p q r a b n m fits e g = elim (rw e at (round_in-Final p.state p a refl)).0 [
  | inl (same, none_used) ↦ resume p q r a b n m same none_used g
  | inr failed ↦
      by_fit (state-Fits p.state p a b fits refl) (Fed-error q r (drop n a ++ b) m failed g)
]
  where
    by_fit : Fits p a b → (r ≡ q) × (m ≡ 0) → Fed p (a ++ b) r (n + m)
    by_fit (waits w) u = resume p q r a b n m (cc) (cc) g
    by_fit (agrees h) u = let total : n + m ≡ n = omega arith in rw (u.0, total) (stops (h ∙ e))
    by_fit (absorbs q' e' w h) u = absurd (cc)

Fed-append :
    {p q r : RequestParser} {a : Bytes} {n m : ℕ} (b : Bytes)
    → SizesFit p (length a + length b)
    → Fed p a q n
    → Fed q (drop n a ++ b) r m
    → Fed p (a ++ b) r (n + m)
Fed-append {p} {q} {r} {a} {n} {m} b fits (stops e) g = stops_both p q r a b n m fits e g
Fed-append {p} {q} {r} {a} {n} {m} b fits (goes {q = p'} n₁ m₁ e f k) g =
    by_fit (state-Fits p.state p a b fits refl)
      (Fed-append b (fits_after p p' a b n₁ fits e) f (rw (drop-drop n₁ m₁ a) (rw k at g)))
  where
    by_fit : Fits p a b → Fed p' (drop n₁ a ++ b) r (m₁ + m) → Fed p (a ++ b) r (n + m)
    by_fit (waits w) h = absurd (cc)
    by_fit (agrees h) later =
        goes n₁ (m₁ + m) (h ∙ e) (rw (drop-append_of_le n₁ a b (round_within p a (inr e))) later)
          (omega arith)
    by_fit (absorbs q' e' w h) later =
        let all : n₁ ≡ length a = cc in
        let same : q' ≡ p' = cc in
        let behind : drop n₁ a ++ b ≡ b = rw all (rw (drop_all (length a) a (le_refl _))) in
        let total : n + m ≡ length a + (m₁ + m) = omega arith in
        rw total (absorbed p p' r a b (m₁ + m) (rw same at e') (rw same at h) (rw behind at later))

-- `feed` on a first piece, and then on its unused tail with a second piece behind it, is `feed` on
-- both pieces at once: the same state and the same number of bytes used.
pub feed-append :
    (p q r : RequestParser) (a b : Bytes) (n m : ℕ)
    → SizesFit p (length a + length b)
    → feed p a ≡ some (q, n)
    → feed q (drop n a ++ b) ≡ some (r, m)
    → feed p (a ++ b) ≡ some (r, n + m)
feed-append p q r a b n m fits f g =
    (feed_iff p (a ++ b) r (n + m)).1
      (Fed-append b fits ((feed_iff p a q n).0 f) ((feed_iff q (drop n a ++ b) r m).0 g))

pub feed_fits :
    (p q : RequestParser) (a b : Bytes) (n : ℕ)
    → SizesFit p (length a + length b)
    → feed p a ≡ some (q, n)
    → SizesFit q (length (drop n a) + length b)
feed_fits p q a b n fits f = fits-Fed b fits ((feed_iff p a q n).0 f)
