-- ===== src/ByteBuffer/Queue.antt =====
-- The buffer is a queue of bytes.
use http.Base.{
  ℕ, ◌+◌, ◌-◌, ◌≤◌, ◌≡◌, refl, ◌∙◌, ap, sym, List, [], ◌∷◌, ◌++◌, Bytes, ◌==◌, length, take, drop,
  arith, length-append, length-take, drop_all, drop-append_of_le, drop-drop, take-length, if_each,
  subst, drop-take, append_assoc,
}
use http.ByteBuffer.{
  ByteBuffer, size, readable, consume, write_at, prepare, writable, commit, fill, receive,
}
use http.ByteBuffer.Prepare.{IsValid, length-write_at, length-readable, prepare-Prepared}

-- What `fill` writes is read behind what was there, once it is committed.
readable-fill :
    (b : ByteBuffer) (s : Bytes)
    → IsValid b
    → length s ≤ writable b
    → readable (commit (fill b s) (length s)) ≡ readable b ++ s
unfolding commit fill write_at
readable-fill b s v h =
    let front = take b.wpos b.memory in
    let back = drop (b.wpos + length s) b.memory in
    let at_end : length front ≡ b.wpos = omega (arith, length-take b.wpos b.memory, v.within) in
    let l = length-readable b v in
    let count : (b.wpos + length s) - b.rpos ≡ length (readable b ++ s) =
      omega (arith, length-append (readable b) s, v.ordered, l) in
    let part : drop b.rpos (front ++ (s ++ back)) ≡ (readable b ++ s) ++ back =
      drop-append_of_le b.rpos front (s ++ back) (omega (arith, v.ordered))
      ∙ ap (λ x. x ++ (s ++ back)) (drop-take b.rpos b.wpos b.memory)
      ∙ unfold readable in sym (append_assoc (readable b) s back) in
    unfold readable in
    (ap (λ k. take k (drop b.rpos (front ++ (s ++ back)))) count
      ∙ ap (take (length (readable b ++ s))) part
      ∙ take-length (readable b ++ s) back)

-- The bytes that are used up go from the front.
readable-advance :
    (b : ByteBuffer) (n : ℕ) → readable (record b { rpos = b.rpos + n }) ≡ drop n (readable b)
unfolding readable
readable-advance b n =
    let count : b.wpos - (b.rpos + n) ≡ (b.wpos - b.rpos) - n = omega arith in
    ap (λ k. take k (drop (b.rpos + n) b.memory)) count
    ∙ ap (take ((b.wpos - b.rpos) - n)) (sym (drop-drop b.rpos n b.memory))
    ∙ sym (drop-take n (b.wpos - b.rpos) (drop b.rpos b.memory))

readable_none : (m : Bytes) → readable (record { memory = m; rpos = 0; wpos = 0 }) ≡ []
unfolding readable
readable_none m = refl

-- What `consume` promises.
pub record Consumed (b : ByteBuffer) (n : ℕ) (c : ByteBuffer) : Type 0 where
  pub valid : IsValid c
  pub rest : readable c ≡ drop n (readable b)

pub consume-Consumed :
    (b : ByteBuffer) (n : ℕ) → IsValid b → n ≤ size b → Consumed b n (consume b n)
unfolding consume
consume-Consumed b n v h =
    if_each (Consumed b n) (b.rpos + n == b.wpos)
      (λ e. record {
        valid = record { ordered = omega arith; within = omega arith };
        rest =
            readable_none b.memory
            ∙ sym (drop_all n (readable b) (ground (arith, length-readable b v)));
      })
      (λ e. record {
        valid = record { ordered = omega (arith, v.ordered); within = v.within };
        rest = readable-advance b n;
      })

commit-IsValid :
    (b : ByteBuffer) (s : Bytes)
    → IsValid b
    → length s ≤ writable b
    → IsValid (commit (fill b s) (length s))
unfolding commit fill
commit-IsValid b s v h = record {
  ordered = omega (arith, v.ordered);
  within = omega (arith, v.within, length-write_at b.memory b.wpos s (omega (arith, v.within)));
}

pub receive-readable :
    (b : ByteBuffer) (n : ℕ) (s : Bytes)
    → IsValid b
    → length s ≤ n
    → IsValid (receive b n s) × (readable (receive b n s) ≡ readable b ++ s)
unfolding receive
receive-readable b n s v h =
    let p = prepare-Prepared b n v in
    let room : length s ≤ writable (prepare b n) = omega (arith, p.room) in
    (
      commit-IsValid (prepare b n) s p.valid room,
      readable-fill (prepare b n) s p.valid room ∙ ap (λ x. x ++ s) p.same,
    )

-- What a client does with the buffer.
pub data BufferOp : Type 0 where
  received : ℕ → Bytes → BufferOp
  used : ℕ → BufferOp

unfoldable pub on_buffer : ByteBuffer → List BufferOp → ByteBuffer
unfolding receive
on_buffer b [] = b
on_buffer b (received n s ∷ ops) = on_buffer (receive b n s) ops
on_buffer b (used n ∷ ops) = on_buffer (consume b n) ops

-- The same on a queue of bytes.
unfoldable pub on_queue : Bytes → List BufferOp → Bytes
on_queue q [] = q
on_queue q (received n s ∷ ops) = on_queue (q ++ s) ops
on_queue q (used n ∷ ops) = on_queue (drop n q) ops

-- No read is longer than the room asked for, and no byte is used up that is not there.
unfoldable pub Allowed : Bytes → List BufferOp → Type 0
Allowed q [] = Unit
Allowed q (received n s ∷ ops) = (length s ≤ n) × Allowed (q ++ s) ops
Allowed q (used n ∷ ops) = (n ≤ length q) × Allowed (drop n q) ops

-- The buffer implements a queue of bytes: after any reads of at most the room that was asked for, and
-- any uses of bytes that are there, what it has to read is the queue, and it is still valid.
pub on_buffer-on_queue :
    (b : ByteBuffer) (ops : List BufferOp)
    → IsValid b
    → Allowed (readable b) ops
    → IsValid (on_buffer b ops) × (readable (on_buffer b ops) ≡ on_queue (readable b) ops)
unfolding on_buffer on_queue Allowed
on_buffer-on_queue b [] v a = (v, refl)
on_buffer-on_queue b (received n s ∷ ops) v a =
    let (w, e) = receive-readable b n s v a.0 in
    let (x, f) =
      on_buffer-on_queue (receive b n s) ops w (subst (λ q. Allowed q ops) (sym e) a.1) in
    (x, f ∙ ap (λ q. on_queue q ops) e)
on_buffer-on_queue b (used n ∷ ops) v a =
    let c = consume-Consumed b n v (omega (arith, length-readable b v, a.0)) in
    let (x, f) =
      on_buffer-on_queue (consume b n) ops c.valid (subst (λ q. Allowed q ops) (sym c.rest) a.1) in
    (x, f ∙ ap (λ q. on_queue q ops) c.rest)
