-- ===== src/Parser/Feed/Pieces.antt =====
-- The caller's part of `feed`'s contract: it keeps the bytes that were not used and presents them
-- again in front of the next piece.
use Prim.Native.Nat.add
use http.Base.{
  ℕ, ◌+◌, [], ◌∷◌, ◌++◌, List, ◌≡◌, refl, ap, sym, ◌∙◌, some, none, Option, arith, Bytes, length,
  length-append, drop, drop-drop, drop-append_of_le, append_assoc, append-nil,
}
use http.Parser.{RequestParser}
use http.Parser.Feed.{feed}
use http.Parser.Feed.Growth.{SizesFit}
use http.Parser.Feed.Halting.{feed_total, feed_within}
use http.Parser.Feed.Splitting.{feed-append, feed_fits}

-- All pieces in one.
abbrev pub joined : List Bytes → Bytes
joined [] = []
joined (x ∷ xs) = x ++ joined xs

-- The parser and the unused tail.
abbrev pub FedState : Type 0
FedState = RequestParser × Bytes

abbrev keep_tail : Bytes → Option (RequestParser × ℕ) → Option FedState
keep_tail data_in none = none
keep_tail data_in (some (p, n)) = some (p, drop n data_in)

-- The pieces in turn, from a parser and the tail that was kept.
pub feed_pieces : RequestParser → Bytes → List Bytes → Option FedState
feed_pieces p tail [] = some (p, tail)
feed_pieces p tail (x ∷ xs) = elim (feed p (tail ++ x)) [
  | none ↦ none
  | some (q, n) ↦ feed_pieces q (drop n (tail ++ x)) xs
]

-- The second of two calls leaves the state and the tail that one call leaves.
keep_tail-append :
    (p q r : RequestParser) (a b : Bytes) (n m : ℕ)
    → SizesFit p (length a + length b)
    → feed p a ≡ some (q, n)
    → feed q (drop n a ++ b) ≡ some (r, m)
    → keep_tail (drop n a ++ b) (feed q (drop n a ++ b)) ≡ keep_tail (a ++ b) (feed p (a ++ b))
keep_tail-append p q r a b n m fits e f =
    rw (f, feed-append p q r a b n m fits e f)
      (ap (λ t. some (r, t))
        (ap (drop m) (sym (drop-append_of_le n a b (feed_within p q a n e)))
          ∙ drop-drop n m (a ++ b)))

fits_regroup :
    (p : RequestParser) (t x rest : Bytes)
    → SizesFit p (length t + length (x ++ rest))
    → SizesFit p (length (t ++ x) + length rest)
fits_regroup p t x rest f =
    let e : length (t ++ x) + length rest ≡ length t + length (x ++ rest) =
      omega (arith, length-append t x, length-append x rest) in
    rw e f

feed_pieces-cons :
    (p : RequestParser) (tail x : Bytes) (xs : List Bytes)
    → SizesFit p (length tail + length (x ++ joined xs))
    → feed_pieces p tail (x ∷ xs)
      ≡ keep_tail (tail ++ (x ++ joined xs)) (feed p (tail ++ (x ++ joined xs)))
unfolding feed_pieces
feed_pieces-cons p tail x [] fits =
    let (q, n, e) = feed_total p (tail ++ x) in rw (append-nil x) (rw (e, feed_pieces) refl)
feed_pieces-cons p tail x (y ∷ ys) fits =
    let (q, n, e) = feed_total p (tail ++ x) in
    let (r, m, f) = feed_total q (drop n (tail ++ x) ++ (y ++ joined ys)) in
    let fits' = fits_regroup p tail x (y ++ joined ys) fits in
    unfolded q n e
    ∙ feed_pieces-cons q (drop n (tail ++ x)) y ys (feed_fits p q (tail ++ x) _ n fits' e)
    ∙ keep_tail-append p q r (tail ++ x) (y ++ joined ys) n m fits' e f
    ∙ rw append_assoc refl
  where
    unfolded :
        (q : RequestParser) (n : ℕ)
        → feed p (tail ++ x) ≡ some (q, n)
        → feed_pieces p tail (x ∷ y ∷ ys) ≡ feed_pieces q (drop n (tail ++ x)) (y ∷ ys)
    unfolded q n e = rw (e, feed_pieces) refl

-- However the input is cut into pieces, with the unused tail of each call in front of the next
-- piece, the parser ends in the state, and with the tail, of a single call on all of the input.
-- It is assumed that the sizes compared with the limits do not wrap at 64 bits.
pub feed_pieces-joined :
    (p q : RequestParser) (x : Bytes) (xs : List Bytes) (n : ℕ)
    → SizesFit p (length (x ++ joined xs))
    → feed p (x ++ joined xs) ≡ some (q, n)
    → feed_pieces p [] (x ∷ xs) ≡ some (q, drop n (x ++ joined xs))
feed_pieces-joined p q x xs n fits e = feed_pieces-cons p [] x xs (rw add.zero fits) ∙ rw e refl
