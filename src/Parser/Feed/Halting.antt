-- ===== src/Parser/Feed/Halting.antt =====
-- The loop of `feed` ends: each round that goes on makes a measure fall. So the fuel of the model is
-- never used up, and `feed` is the big-step relation `Fed`, which has no fuel.
use mathlib.Core.Path.{subst₂}
use http.Base.{
  ℕ, zero, suc, ◌+◌, ◌-◌, ◌*◌, ◌≤◌, ◌<◌, Bool, true, false, ◌≡◌, refl, ap, ◌∙◌, ◌↔◌, inl, inr, ◌⊎◌,
  some, arith, Bytes, Option-cases, length, length-drop, drop, take, ◌∷◌, [], find_str,
  find_str_bound,
}
use http.Parser.{
  State, RequestParser, request_line, headers, body, chunk_size, chunk_data, chunk_data_end,
  trailers, done, error, wrap,
}
use http.Parser.Feed.{
  Round, halt, next, go_on, crlf, on_request_line, at_request_line, on_field, on_header_line,
  at_headers, at_body, at_chunk_data_end, at_chunk_size, round_in, round, feed_loop, feed,
}

-- A body may have a round that uses no byte: the one that finds nothing missing.
abbrev pub busy : State → ℕ
busy body = 1
busy chunk_data = 1
busy _ = 0

busy_le : (s : State) → busy s ≤ 1
busy_le body = omega arith
busy_le chunk_data = omega arith
busy_le _ = omega arith

-- What a round makes of a measure `m`: it uses bytes that are there, and the measure falls.
abbrev pub Advances : ℕ → Bytes → Round → Type 0
Advances m rest (halt n q) = n ≤ length rest
Advances m rest (next n q) = (n ≤ length rest) × (2 * (length rest - n) + busy q.state < m)

go_on-Advances :
    (rest : Bytes) (m n k : ℕ) (r : RequestParser × Bool)
    → n ≤ length rest
    → k ≤ length rest
    → 2 * (length rest - k) + 1 < m
    → Advances m rest (go_on n k r)
go_on-Advances rest m n k (p, true) h j l = (j, omega (arith, busy_le p.state))
go_on-Advances rest m n k (p, false) h j l = h

at_request_line-Advances :
    (p : RequestParser) (rest : Bytes)
    → p.state ≡ request_line
    → Advances (2 * length rest) rest (at_request_line p rest)
unfolding at_request_line on_request_line
at_request_line-Advances p rest s = elim (Option-cases (find_str crlf rest)) [
  | inl e ↦ ground (arith, e)
  | inr (i, e) ↦
      ground
        (arith, e, find_str_bound crlf rest i e, go_on-Advances rest (2 * length rest) 0 (i + 2))
]

on_field-Advances :
    (p : RequestParser) (b : Bool) (line : Bytes) (n : ℕ) (rest : Bytes)
    → n ≤ length rest
    → 1 < n
    → Advances (2 * length rest) rest (on_field p b line n)
unfolding on_field
on_field-Advances p b line n rest h k =
    ground (arith, λ (r : RequestParser × Bool). go_on-Advances rest (2 * length rest) n n r h h)

at_headers-Advances :
    (p : RequestParser) (b : Bool) (rest : Bytes)
    → Advances (2 * length rest) rest (at_headers p b rest)
unfolding at_headers on_header_line
at_headers-Advances p b rest = elim (Option-cases (find_str crlf rest)) [
  | inl e ↦ ground (arith, e)
  | inr (i, e) ↦
      let longer = record p { header_bytes = wrap (p.header_bytes + (i + 2)) } in
      ground (
        arith,
        e,
        find_str_bound crlf rest i e,
        on_field-Advances longer b (take i rest) (i + 2) rest,
        λ (r : RequestParser × Bool). go_on-Advances rest (2 * length rest) (i + 2) (i + 2) r,
      )
]

at_body-Advances :
    (p : RequestParser) (s : State) (rest : Bytes)
    → busy s ≡ 0
    → Advances (2 * length rest + 1) rest (at_body p s rest)
unfolding at_body
at_body-Advances p s [] h = omega arith
at_body-Advances p s (c ∷ rest) h = ground (arith, busy_le p.state)

at_chunk_data_end-Advances :
    (p : RequestParser) (rest : Bytes) → Advances (2 * length rest) rest (at_chunk_data_end p rest)
unfolding at_chunk_data_end
at_chunk_data_end-Advances p rest = ground arith

at_chunk_size-Advances :
    (p : RequestParser) (rest : Bytes) → Advances (2 * length rest) rest (at_chunk_size p rest)
unfolding at_chunk_size
at_chunk_size-Advances p rest = elim (Option-cases (find_str crlf rest)) [
  | inl e ↦ ground (arith, e)
  | inr (i, e) ↦ ground (
    arith,
    e,
    find_str_bound crlf rest i e,
    λ (r : RequestParser × Bool). go_on-Advances rest (2 * length rest) 0 (i + 2) r,
  )
]

Advances-mono : (m k : ℕ) (rest : Bytes) (r : Round) → m ≤ k → Advances m rest r → Advances k rest r
Advances-mono m k rest (halt n q) h a = a
Advances-mono m k rest (next n q) h a = (a.0, omega arith)

pub round_in-Advances :
    (s : State) (p : RequestParser) (rest : Bytes)
    → p.state ≡ s
    → Advances (2 * length rest + busy s) rest (round_in s p rest)
unfolding round_in
round_in-Advances request_line p rest e =
    Advances-mono _ _ rest _ (omega arith) (at_request_line-Advances p rest e)
round_in-Advances headers p rest e =
    Advances-mono _ _ rest _ (omega arith) (at_headers-Advances p true rest)
round_in-Advances trailers p rest e =
    Advances-mono _ _ rest _ (omega arith) (at_headers-Advances p false rest)
round_in-Advances body p rest e = at_body-Advances p done rest refl
round_in-Advances chunk_data p rest e = at_body-Advances p chunk_data_end rest refl
round_in-Advances chunk_data_end p rest e =
    Advances-mono _ _ rest _ (omega arith) (at_chunk_data_end-Advances p rest)
round_in-Advances chunk_size p rest e =
    Advances-mono _ _ rest _ (omega arith) (at_chunk_size-Advances p rest)
round_in-Advances done p rest e = omega arith
round_in-Advances error p rest e = omega arith

-- A round stays within the data.
pub round_within :
    (p : RequestParser) (rest : Bytes) {n : ℕ} {q : RequestParser}
    → (round p rest ≡ halt n q) ⊎ (round p rest ≡ next n q)
    → n ≤ length rest
round_within p rest (inl e) = rw e at (round_in-Advances p.state p rest refl)
round_within p rest (inr e) = (rw e at (round_in-Advances p.state p rest refl)).0

-- `feed` with no fuel: from `p`, on this data, the loop returns in state `q` with `n` bytes used.
pub data Fed : RequestParser → Bytes → RequestParser → ℕ → Type 0 where
  stops : {p q : RequestParser} {rest : Bytes} {n : ℕ} → round p rest ≡ halt n q → Fed p rest q n
  goes :
      {p q r : RequestParser} {rest : Bytes} {k : ℕ} (n m : ℕ)
      → round p rest ≡ next n q
      → Fed q (drop n rest) r m
      → k ≡ n + m
      → Fed p rest r k

Round-cases :
    (r : Round)
    → ((n : ℕ) × (q : RequestParser) × (r ≡ halt n q))
      ⊎ ((n : ℕ) × (q : RequestParser) × (r ≡ next n q))
Round-cases (halt n q) = inl (n, q, refl)
Round-cases (next n q) = inr (n, q, refl)

feed_loop-Fed :
    (fuel : ℕ) (p : RequestParser) (rest : Bytes) (c : ℕ)
    → 2 * length rest + busy p.state < fuel
    → (q : RequestParser) × (n : ℕ) × (feed_loop fuel p rest c ≡ some (q, c + n)) × Fed p rest q n
unfolding feed_loop
feed_loop-Fed zero p rest c h = absurd (omega arith)
feed_loop-Fed (suc fuel) p rest c h = elim (Round-cases (round p rest)) [
  | inl (n, q, e) ↦ (q, n, rw (e, feed_loop), stops e)
  | inr (n, q, e) ↦
      let a = rw e at (round_in-Advances p.state p rest refl) in
      let (r, m, l, f) =
        feed_loop-Fed fuel q (drop n rest) (c + n) (omega (arith, length-drop n rest)) in
      (r, n + m, rw (e, feed_loop) (l ∙ ap (λ k. some (r, k)) (omega arith)), goes n m e f refl)
]

Fed-unique :
    {p q r : RequestParser} {rest : Bytes} {n m : ℕ}
    → Fed p rest q n
    → Fed p rest r m
    → (q ≡ r) × (n ≡ m)
Fed-unique (stops e) (stops e') = (cc, cc)
Fed-unique (stops e) (goes n m e' f k) = absurd (cc)
Fed-unique (goes n m e f k) (stops e') = absurd (cc)
Fed-unique (goes {q = q₁} n m e f k) (goes {q = q₂} n' m' e' f' k') =
    let same : q₂ ≡ q₁ = cc in
    let used : n' ≡ n = cc in let (u, v) = Fed-unique f (rw (same, used) at f') in (u, omega arith)

-- A result of `feed` is a result of the loop without fuel, and the other way about.
pub feed_iff :
    (p : RequestParser) (rest : Bytes) (q : RequestParser) (n : ℕ)
    → (feed p rest ≡ some (q, n)) ↔ Fed p rest q n
unfolding feed
feed_iff p rest q n =
    let (r, m, e, f) =
      feed_loop-Fed (2 * length rest + 2) p rest 0 (omega (arith, busy_le p.state)) in
    (
      λ h. subst₂ (λ x k. Fed p rest x k) (cc) (ground arith) f,
      λ g. let (u, v) = Fed-unique g f in ground arith,
    )

-- `feed` returns.
pub feed_total :
    (p : RequestParser) (rest : Bytes) → (q : RequestParser) × (n : ℕ) × (feed p rest ≡ some (q, n))
unfolding feed
feed_total p rest =
    let (q, n, e, f) =
      feed_loop-Fed (2 * length rest + 2) p rest 0 (omega (arith, busy_le p.state)) in
    (q, n, e ∙ ap (λ k. some (q, k)) (omega arith))

-- `feed` returns on every input: with some state `q` and number of bytes `n` that the loop of the source, run
-- with no fuel, returns too; and that loop returns nothing else.
pub feed-Fed :
    (p : RequestParser) (rest : Bytes)
    → (q : RequestParser) × (n : ℕ) × (feed p rest ≡ some (q, n))
      × Fed p rest q n
      × ((r : RequestParser) (m : ℕ) → Fed p rest r m → (r ≡ q) × (m ≡ n))
feed-Fed p rest =
    let (q, n, e) = feed_total p rest in
    let f = (feed_iff p rest q n).0 e in (q, n, e, f, λ r m g. Fed-unique g f)

Fed-within : {p q : RequestParser} {rest : Bytes} {n : ℕ} → Fed p rest q n → n ≤ length rest
Fed-within {p} {q} {rest} (stops e) = round_within p rest (inl e)
Fed-within {p} {q} {rest} (goes k m e f j) =
    omega (arith, round_within p rest (inr e), Fed-within f, length-drop k rest)

-- It uses no byte that it was not given.
pub feed_within :
    (p q : RequestParser) (rest : Bytes) (n : ℕ) → feed p rest ≡ some (q, n) → n ≤ length rest
feed_within p q rest n e = Fed-within ((feed_iff p rest q n).0 e)
