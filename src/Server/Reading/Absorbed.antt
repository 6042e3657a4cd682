-- ===== src/Server/Reading/Absorbed.antt =====
-- What `do_read` leaves: the bytes that came, and why it stopped.
use http.Base.{
  ℕ, ◌+◌, ◌≤◌, ◌<◌, ◌≡◌, refl, ◌∙◌, ap, sym, subst, ◌⊎◌, inl, inr, Bool, true, false, List, [], ◌∷◌,
  ◌++◌, Bytes, ltb, ltb→lt, ltb→le, length, length-append, append_assoc, append-nil, arith,
  Bool-cases,
}
use http.ByteBuffer.{ByteBuffer, size, readable, prepare, receive}
use http.ByteBuffer.Prepare.{IsValid, prepare-Prepared, length-readable}
use http.ByteBuffer.Queue.{receive-readable}
use http.Server.{
  interrupted, would_block, other_error, RecvResult, received, recv_failed, Connection, Turn,
  read_size,
}
use http.Server.Reading.{recv_taken, on_received, read_loop, do_read}

-- `recv` gives no more bytes than it was asked for.
abbrev pub FitsRead : RecvResult → Type 0
FitsRead (received s) = length s ≤ read_size
FitsRead (recv_failed e) = Unit

abbrev pub AllFit : List RecvResult → Type 0
AllFit [] = Unit
AllFit (r ∷ rs) = FitsRead r × AllFit rs

-- The bytes that the answers hold, in their order.
abbrev pub arrivals : List RecvResult → Bytes
arrivals [] = []
arrivals (received s ∷ rs) = s ++ arrivals rs
arrivals (recv_failed e ∷ rs) = arrivals rs

-- Why the loop has stopped.
abbrev pub Stopped {ℓ} : {P : Type ℓ} → ℕ → Connection P → Type 0
Stopped room c = (c.can_read ≡ false) ⊎ (c.peer_closed ≡ true) ⊎ (room ≤ size c.input)

-- What a run of the loop makes of a turn.
pub record Absorbed {ℓ} {P : Type ℓ} (room : ℕ) (t : Turn P) (r : Turn P × Bool) : Type 0 where
  pub valid : IsValid r.0.conn.input
  pub bytes : Bytes
  pub appended : readable r.0.conn.input ≡ readable t.conn.input ++ bytes
  pub taken : arrivals t.conn.socket.recvs ≡ bytes ++ arrivals r.0.conn.socket.recvs
  pub bounded : size r.0.conn.input < room + read_size
  pub stopped : r.1 ≡ true → Stopped room r.0.conn
  pub kept_progress :
      r.0.progress ≡ false
      → (t.progress ≡ false)
        × (r.0.conn.peer_closed ≡ t.conn.peer_closed)
        × (size r.0.conn.input ≡ size t.conn.input)

pub size-prepare : (b : ByteBuffer) (n : ℕ) → IsValid b → size (prepare b n) ≡ size b
size-prepare b n v =
    let p = prepare-Prepared b n v in
    sym (length-readable (prepare b n) p.valid) ∙ ap length p.same ∙ length-readable b v

pub size-receive :
    (b : ByteBuffer) (n : ℕ) (s : Bytes)
    → IsValid b
    → length s ≤ n
    → size (receive b n s) ≡ size b + length s
size-receive b n s v h =
    let (w, e) = receive-readable b n s v h in
    let l : length (readable (receive b n s)) ≡ length (readable b ++ s) = ap length e in
    omega (
      arith,
      length-readable (receive b n s) w,
      length-readable b v,
      length-append (readable b) s,
      l,
    )

module _ {ℓ} {P : Type ℓ} (room : ℕ) where
  -- The loop is left where it stands.
  Absorbed-here :
      (t : Turn P)
      → IsValid t.conn.input
      → room ≤ size t.conn.input
      → size t.conn.input < room + read_size
      → Absorbed room t (t, true)
  Absorbed-here t v full b = record {
    valid = v;
    bytes = [];
    appended = sym (append-nil (readable t.conn.input));
    taken = refl;
    bounded = b;
    stopped = λ e. inr (inr full);
    kept_progress = λ e. (e, refl, refl);
  }

  -- The loop is left after a call that has given no byte.
  Absorbed-left :
      (t u : Turn P) (ok : Bool)
      → IsValid t.conn.input
      → size t.conn.input < room + read_size
      → u.conn.input ≡ prepare t.conn.input read_size
      → arrivals t.conn.socket.recvs ≡ arrivals u.conn.socket.recvs
      → (ok ≡ true → Stopped room u.conn)
      → (u.progress ≡ false → (t.progress ≡ false) × (u.conn.peer_closed ≡ t.conn.peer_closed))
      → Absorbed room t (u, ok)
  Absorbed-left t u ok v b e a stop keep =
      let p = prepare-Prepared t.conn.input read_size v in
      let same : size u.conn.input ≡ size t.conn.input =
        ap size e ∙ size-prepare t.conn.input read_size v in
      record {
        valid = subst IsValid (sym e) p.valid;
        bytes = [];
        appended = ap readable e ∙ p.same ∙ sym (append-nil (readable t.conn.input));
        taken = a;
        bounded = omega (arith, same);
        stopped = stop;
        kept_progress = λ q. ((keep q).0, (keep q).1, same);
      }

  -- The loop goes on.
  Absorbed-on :
      (t u : Turn P) (s : Bytes) (r : Turn P × Bool)
      → readable u.conn.input ≡ readable t.conn.input ++ s
      → arrivals t.conn.socket.recvs ≡ s ++ arrivals u.conn.socket.recvs
      → (u.progress ≡ false
          → (t.progress ≡ false)
            × (u.conn.peer_closed ≡ t.conn.peer_closed)
            × (size u.conn.input ≡ size t.conn.input))
      → Absorbed room u r
      → Absorbed room t r
  Absorbed-on t u s r e g keep a = record {
    valid = a.valid;
    bytes = s ++ a.bytes;
    appended =
        a.appended ∙ ap (λ x. x ++ a.bytes) e ∙ append_assoc (readable t.conn.input) s a.bytes;
    taken = g ∙ ap (◌++◌ s) a.taken ∙ sym (append_assoc s a.bytes (arrivals r.0.conn.socket.recvs));
    bounded = a.bounded;
    stopped = a.stopped;
    kept_progress =
        λ q. let (x, y, z) = a.kept_progress q in let (x', y', z') = keep x in (x', y ∙ y', z ∙ z');
  }

  read_loop-Absorbed :
      (rs : List RecvResult) (t : Turn P)
      → t.conn.socket.recvs ≡ rs
      → IsValid t.conn.input
      → AllFit rs
      → size t.conn.input < room + read_size
      → Absorbed room t (read_loop room rs t)
  unfolding read_loop
  read_loop-Absorbed [] t g v f b = elim (Bool-cases (ltb (size t.conn.input) room)) [
    | inl e ↦
        rw (e, read_loop)
          (Absorbed-left t _ true v b refl (ap arrivals g) (λ q. inl refl) (λ q. (q, refl)))
    | inr e ↦ rw (e, read_loop) (Absorbed-here t v (ltb→le (size t.conn.input) room e) b)
  ]
  read_loop-Absorbed (received [] ∷ rs) t g v f b =
      elim (Bool-cases (ltb (size t.conn.input) room)) [
        | inl e ↦
            rw (e, read_loop)
              (Absorbed-left t _ true v b refl (ap arrivals g) (λ q. inr (inl refl))
                (λ q. absurd (cc)))
        | inr e ↦ rw (e, read_loop) (Absorbed-here t v (ltb→le (size t.conn.input) room e) b)
      ]
  read_loop-Absorbed (received (c ∷ s) ∷ rs) t g v f b =
      elim (Bool-cases (ltb (size t.conn.input) room)) [
        | inl e ↦
            rw (e, read_loop)
              (let (w, a) = receive-readable t.conn.input read_size (c ∷ s) v f.0 in
                let l = size-receive t.conn.input read_size (c ∷ s) v f.0 in
                Absorbed-on t (on_received t rs (c ∷ s)) (c ∷ s) _ a (ap arrivals g)
                  (λ q. absurd (cc))
                  (read_loop-Absorbed rs (on_received t rs (c ∷ s)) refl w f.1
                    (omega (arith, l, f.0, ltb→lt (size t.conn.input) room e))))
        | inr e ↦ rw (e, read_loop) (Absorbed-here t v (ltb→le (size t.conn.input) room e) b)
      ]
  read_loop-Absorbed (recv_failed interrupted ∷ rs) t g v f b =
      elim (Bool-cases (ltb (size t.conn.input) room)) [
        | inl e ↦
            rw (e, read_loop)
              (let p = prepare-Prepared t.conn.input read_size v in
                let l = size-prepare t.conn.input read_size v in
                Absorbed-on t (recv_taken t rs) [] _
                  (p.same ∙ sym (append-nil (readable t.conn.input))) (ap arrivals g)
                  (λ q. (q, refl, l))
                  (read_loop-Absorbed rs (recv_taken t rs) refl p.valid f.1 (omega (arith, l))))
        | inr e ↦ rw (e, read_loop) (Absorbed-here t v (ltb→le (size t.conn.input) room e) b)
      ]
  read_loop-Absorbed (recv_failed would_block ∷ rs) t g v f b =
      elim (Bool-cases (ltb (size t.conn.input) room)) [
        | inl e ↦
            rw (e, read_loop)
              (Absorbed-left t _ true v b refl (ap arrivals g) (λ q. inl refl) (λ q. (q, refl)))
        | inr e ↦ rw (e, read_loop) (Absorbed-here t v (ltb→le (size t.conn.input) room e) b)
      ]
  read_loop-Absorbed (recv_failed other_error ∷ rs) t g v f b =
      elim (Bool-cases (ltb (size t.conn.input) room)) [
        | inl e ↦
            rw (e, read_loop)
              (Absorbed-left t _ false v b refl (ap arrivals g) (λ q. absurd (cc)) (λ q. (q, refl)))
        | inr e ↦ rw (e, read_loop) (Absorbed-here t v (ltb→le (size t.conn.input) room e) b)
      ]

-- `do_read` appends the bytes of the answers that it takes, in their order, to the input. It returns
-- only when the call would block, the peer has closed or the input is full, and the input stays below
-- `room` and one read more.
pub do_read-Absorbed {ℓ} :
    {P : Type ℓ} (room : ℕ) (t : Turn P)
    → IsValid t.conn.input
    → AllFit t.conn.socket.recvs
    → size t.conn.input < room + read_size
    → Absorbed room t (do_read room t)
unfolding do_read
do_read-Absorbed room t v f b = read_loop-Absorbed room t.conn.socket.recvs t refl v f b
