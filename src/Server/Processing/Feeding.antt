-- ===== src/Server/Processing/Feeding.antt =====
-- `process` feeds the input to the parser: bytes that are used up are gone, and a call that uses none
-- leaves the parser no busier.
use http.Base.{
  ℕ, ◌-◌, ◌≤◌, ◌<◌, ◌≡◌, refl, ◌∙◌, ap, sym, ◌⊎◌, inl, inr, true, not, ◌&&◌, [], some, Bytes, ◌==◌,
  if_each, length, length-drop, drop, append-nil, arith, Bool-cases,
}
use http.Parser.{
  State, RequestParser, request_line, headers, body, chunk_size, chunk_data, chunk_data_end,
  trailers, done, error, started, failed, is_request_line, is_error,
}
use http.Parser.Feed.{feed}
use http.Parser.Feed.Halting.{feed_total, feed_within}
use http.Parser.Feed.Unused.{feed-unused, feed-failed}
use http.ByteBuffer.{ByteBuffer, size, readable, consume}
use http.ByteBuffer.Prepare.{IsValid, length-readable}
use http.ByteBuffer.Queue.{consume-Consumed}
use http.Server.{Turn}
use http.Server.Writing.Items.{flow}
use http.Server.Writing.Measure.{flag, flag_bound, measure}
use http.Server.Sharing.{SameWorker, SameWorker-refl}
use http.Server.Steps.{recv_work, ripe, effort, IsSound, Moves}
use http.Server.Processing.{fed, feed_input}

pub feed-fed : (p : RequestParser) (s : Bytes) → feed p s ≡ some (fed p s)
unfolding fed
feed-fed p s = let (q, n, e) = feed_total p s in rw (e, fed) refl

-- A state before a request, an error, or one on the way.
state_cases :
    (s : State)
    → (s ≡ request_line) ⊎ ((s ≡ error) ⊎ (flag (not (is_request_line s) && not (is_error s)) ≡ 1))
state_cases request_line = inl refl
state_cases error = inr (inl refl)
state_cases headers = inr (inr refl)
state_cases body = inr (inr refl)
state_cases chunk_size = inr (inr refl)
state_cases chunk_data = inr (inr refl)
state_cases chunk_data_end = inr (inr refl)
state_cases trailers = inr (inr refl)
state_cases done = inr (inr refl)

ripe_error : (p : RequestParser) → p.state ≡ error → ripe p ≡ 0
ripe_error p e = ap (λ s. flag (not (is_request_line s) && not (is_error s))) e

pub ripe_unused :
    (p q : RequestParser) (s : Bytes) (n : ℕ) → feed p s ≡ some (q, n) → n ≡ 0 → ripe q ≤ ripe p
ripe_unused p q s n h z = elim (state_cases p.state) [
  | inl e ↦ elim (feed-unused p q s e (h ∙ ap (λ k. some (q, k)) z)) [
    | inl w ↦ let same : ripe q ≡ ripe p = ap ripe w in omega arith
    | inr w ↦ omega (arith, ripe_error q w)
  ]
  | inr (inl e) ↦ let same : ripe q ≡ ripe p = ap ripe (feed-failed p q s n e h) in omega arith
  | inr (inr e) ↦ omega (arith, flag_bound (started q && not (failed q)))
]

size-consume : (b : ByteBuffer) (n : ℕ) → IsValid b → n ≤ size b → size (consume b n) ≡ size b - n
size-consume b n v h =
    let c = consume-Consumed b n v h in
    let l : length (readable (consume b n)) ≡ length (drop n (readable b)) = ap length c.rest in
    omega (
      arith,
      length-readable (consume b n) c.valid,
      length-readable b v,
      length-drop n (readable b),
      l,
    )

module _ {ℓ} {P : Type ℓ} where
  -- The number of bytes that `feed_input` uses.
  abbrev pub used_of : Turn P → ℕ
  used_of t = (fed t.conn.parser (readable t.conn.input)).1

  pub used_of_bound : (t : Turn P) → IsValid t.conn.input → used_of t ≤ size t.conn.input
  used_of_bound t v =
      let r = fed t.conn.parser (readable t.conn.input) in
      omega (
        arith,
        length-readable t.conn.input v,
        feed_within t.conn.parser r.0 (readable t.conn.input) r.1
            (feed-fed t.conn.parser (readable t.conn.input)),
      )

  pub feed_input-size :
      (t : Turn P)
      → IsValid t.conn.input
      → size (feed_input t).conn.input ≡ size t.conn.input - used_of t
  unfolding feed_input
  feed_input-size t v = size-consume t.conn.input (used_of t) v (used_of_bound t v)

  pub feed_input-ripe :
      (t : Turn P) → (0 < used_of t) ⊎ (ripe (feed_input t).conn.parser ≤ ripe t.conn.parser)
  unfolding feed_input
  feed_input-ripe t =
      let r = fed t.conn.parser (readable t.conn.input) in
      elim (Bool-cases (r.1 == 0)) [
        | inl e ↦ inr (
            ripe_unused t.conn.parser r.0 (readable t.conn.input) r.1
              (feed-fed t.conn.parser (readable t.conn.input)) (ground arith))
        | inr e ↦ inl (ground arith)
      ]

  feed_input-IsSound : (t : Turn P) → IsSound t.conn → IsSound (feed_input t).conn
  unfolding feed_input
  feed_input-IsSound t s = record {
    valid = (consume-Consumed t.conn.input (used_of t) s.valid (used_of_bound t s.valid)).valid;
    fits = s.fits;
    kernel = s.kernel;
  }

  feed_input_rest :
      (t : Turn P)
      → (measure (feed_input t).conn ≡ measure t.conn)
        × ((feed_input t).conn.socket ≡ t.conn.socket)
        × ((feed_input t).conn.continue_sent ≡ t.conn.continue_sent)
        × ((feed_input t).conn.close_after_write ≡ t.conn.close_after_write)
  unfolding feed_input
  feed_input_rest t = (refl, refl, refl, refl)

  -- What one use of the input costs.
  feed_input-effort :
      (t : Turn P)
      → IsValid t.conn.input
      → (effort (feed_input t).conn ≤ effort t.conn)
        × (0 < used_of t → effort (feed_input t).conn < effort t.conn)
  feed_input-effort t v =
      let l = feed_input-size t v in
      let b = used_of_bound t v in
      let q =
        flag_bound
          (started (feed_input t).conn.parser && not (failed (feed_input t).conn.parser)) in
      let (m, w, k, j) = feed_input_rest t in
      let work : recv_work (feed_input t).conn.socket.recvs ≡ recv_work t.conn.socket.recvs =
        ap (λ x. recv_work x.recvs) w in
      let cont : flag (not (feed_input t).conn.continue_sent) ≡ flag (not t.conn.continue_sent) =
        ap (λ x. flag (not x)) k in
      let clos : flag (not (feed_input t).conn.close_after_write)
          ≡ flag (not t.conn.close_after_write) =
        ap (λ x. flag (not x)) j in
      let drops : 0 < used_of t → effort (feed_input t).conn < effort t.conn = λ u. omega arith in
      (
        elim (feed_input-ripe t) [ inl u ↦ let d = drops u in omega arith | inr r ↦ omega arith ],
        drops,
      )

  feed_input-paid :
      (t : Turn P) → (feed_input t).progress ≡ true → (t.progress ≡ true) ⊎ (0 < used_of t)
  unfolding feed_input
  feed_input-paid t =
      if_each (λ b. b ≡ true → (t.progress ≡ true) ⊎ (0 < used_of t)) (used_of t == 0)
        (λ z e. inl e) (λ z e. inr (ground arith))

  feed_input-SameWorker : (t : Turn P) → SameWorker t.worker (feed_input t).worker
  unfolding feed_input
  feed_input-SameWorker t = SameWorker-refl t.worker

  feed_input-flow : (t : Turn P) → flow (feed_input t).conn ≡ flow t.conn
  unfolding feed_input
  feed_input-flow t = refl

  pub feed_input-Moves : (t : Turn P) → IsSound t.conn → Moves t (feed_input t)
  feed_input-Moves t s =
      let (le, lt) = feed_input-effort t s.valid in
      record {
        sound = feed_input-IsSound t s;
        more = [];
        carried = feed_input-flow t ∙ sym (append-nil (flow t.conn));
        worker = feed_input-SameWorker t;
        bounded = le;
        paid = λ e. elim (feed_input-paid t e) [ inl p ↦ inl p | inr n ↦ inr (lt n) ];
      }
