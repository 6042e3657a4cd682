-- ===== src/Fuzz/Joining.antt =====
-- The inner loop over two pieces of the input, one after the other, is the inner loop over both.
use http.Base.{
  ℕ, ◌+◌, ◌≤◌, false, List, [], ◌++◌, ◌≡◌, refl, sym, subst, some, Bytes, length, drop, drop-drop,
  drop-append_of_le, append-nil, arith,
}
use http.Parser.{RequestParser, done, error, reset, is_error, is_done}
use http.Parser.Feed.{feed, round_in, halt, round}
use http.Parser.Feed.Halting.{stops, feed_iff, feed_total, feed_within}
use http.Parser.Feed.Growth.{SizesFit}
use http.Parser.Feed.Splitting.{feed-append, feed_fits}
use http.Parser.Feed.Bodies.{HasRoom}
use http.Parser.Feed.Rooms.{feed-HasRoom}
use http.Fuzz.{Drained, Outcome, over, waiting, returned}
use http.Fuzz.Draining.{Drains, fails, breaks, takes, reset-HasRoom}

-- A parser that reads no further.
halted : (p : RequestParser) (rest : Bytes) → round p rest ≡ halt 0 p → feed p rest ≡ some (p, 0)
halted p rest e = (feed_iff p rest p 0).1 (stops e)

error_halts : (p : RequestParser) (rest : Bytes) → p.state ≡ error → feed p rest ≡ some (p, 0)
unfolding round_in
error_halts p rest e = halted p rest (subst (λ s. round_in s p rest ≡ halt 0 p) (sym e) refl)

done_halts : (p : RequestParser) (rest : Bytes) → p.state ≡ done → feed p rest ≡ some (p, 0)
unfolding round_in
done_halts p rest e = halted p rest (subst (λ s. round_in s p rest ≡ halt 0 p) (sym e) refl)

-- More bytes behind the input do not change what `feed` made of it, where it has read all it will.
settled :
    (p q : RequestParser) (a b : Bytes) (n : ℕ)
    → SizesFit p (length a + length b)
    → feed p a ≡ some (q, n)
    → feed q (drop n a ++ b) ≡ some (q, 0)
    → feed p (a ++ b) ≡ some (q, n)
settled p q a b n fits e f =
    let zero_more : n + 0 ≡ n = omega arith in rw zero_more at (feed-append p q q a b n 0 fits e f)

tail_regroup :
    (p q : RequestParser) (a b : Bytes) (n m : ℕ)
    → feed p a ≡ some (q, n)
    → drop (n + m) (a ++ b) ≡ drop m (drop n a ++ b)
tail_regroup p q a b n m e =
    rw (sym (drop-append_of_le n a b (feed_within p q a n e))) (sym (drop-drop n m (a ++ b)))

reset-SizesFit : (q : RequestParser) (size : ℕ) → SizesFit q size → SizesFit (reset q) size
unfolding reset
reset-SizesFit q size f = record {
  line_fits = f.line_fits;
  chunk_line_fits = f.chunk_line_fits;
  header_fits = omega (arith, f.header_fits);
}

-- What the loop leaves after more bytes: what it left, where `run` is over, and else what it leaves
-- when it goes on with them behind the tail.
abbrev pub Later : Drained → Bytes → Drained → Type 0
Later (over r) b d = d ≡ over r
Later (waiting q rest ds) b d = Drains q (rest ++ b) ds d

pub Drains-append :
    {p : RequestParser} {a : Bytes} {ds : List Bytes} {c : Drained} (b : Bytes) (d : Drained)
    → SizesFit p (length a + length b)
    → Drains p a ds c
    → Later c b d
    → Drains p (a ++ b) ds d
Drains-append {p} {a} {ds} b d fits (fails {q = q} {n = n} e f) l =
    rw l (fails (settled p q a b n fits e (error_halts q _ f)) f)
Drains-append {p} {a} {ds} b d fits (takes {q = q} {n = n} e f later) l =
    takes (settled p q a b n fits e (done_halts q _ f)) f (
      rw (drop-append_of_le n a b (feed_within p q a n e))
        (Drains-append b d (reset-SizesFit q _ (feed_fits p q a b n fits e)) later l))
Drains-append {p} {a} {ds} b _ fits (breaks {q = q} {n = n} e x y) (fails {n = m} f g) =
    fails (feed-append p q _ a b n m fits e f) g
Drains-append {p} {a} {ds} b _ fits (breaks {q = q} {n = n} e x y) (breaks {n = m} f g h) =
    rw (sym (tail_regroup p q a b n m e)) (breaks (feed-append p q _ a b n m fits e f) g h)
Drains-append {p} {a} {ds} b d fits (breaks {q = q} {n = n} e x y) (takes {n = m} f g later) =
    takes (feed-append p q _ a b n m fits e f) g (rw (tail_regroup p q a b n m e) later)

-- A parser that has been drained, with its tail.
abbrev pub Idle : RequestParser → Bytes → Type 0
Idle p buf = (feed p buf ≡ some (p, 0)) × (is_error p.state ≡ false) × (is_done p.state ≡ false)

-- What holds between two turns of the outer loop, with so many bytes to come.
abbrev pub Between : ℕ → Drained → Type 0
Between more (over r) = (out : Outcome) × (r ≡ returned out)
Between more (waiting p buf ds) = Idle p buf × HasRoom 4096 p × SizesFit p (length buf + more)

-- `feed` on the tail that it left uses nothing more.
feed-idle :
    (p q : RequestParser) (a : Bytes) (n : ℕ)
    → SizesFit p (length a + 0)
    → feed p a ≡ some (q, n)
    → feed q (drop n a) ≡ some (q, 0)
feed-idle p q a n fits e =
    let (r, m, f) = feed_total q (drop n a) in
    let g = feed-append p q r a [] n m fits e (rw (append-nil (drop n a)) f) in
    let h : feed p a ≡ some (r, n + m) = rw (append-nil a) at g in
    let same : r ≡ q = cc in
    let total : n + m ≡ n = cc in
    let none_used : m ≡ 0 = omega (arith, total) in rw (same, none_used) at f

fewer : {p : RequestParser} {m n : ℕ} → n ≤ m → SizesFit p m → SizesFit p n
fewer l f = record {
  line_fits = f.line_fits;
  chunk_line_fits = f.chunk_line_fits;
  header_fits = omega (arith, f.header_fits, l);
}

pub Drains-Between :
    {p : RequestParser} {a : Bytes} {ds : List Bytes} {c : Drained} (more : Bytes)
    → HasRoom 4096 p
    → SizesFit p (length a + length more)
    → Drains p a ds c
    → Between (length more) c
Drains-Between more room fits (fails e f) = (_, refl)
Drains-Between {p} {a} more room fits (breaks {q = q} {n = n} e f g) = (
  (feed-idle p q a n (fewer (omega arith) fits) e, f, g),
  feed-HasRoom 4096 p q a n (omega arith) room e,
  feed_fits p q a more n fits e,
)
Drains-Between {p} {a} more room fits (takes {q = q} {n = n} e f later) =
    Drains-Between more (reset-HasRoom p q a n room e)
      (reset-SizesFit q _ (feed_fits p q a more n fits e)) later
