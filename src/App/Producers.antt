-- ===== src/App/Producers.antt =====
-- What the bodies of /stream/{n} and /bytes/{n} are, from the first call of their producers to the
-- last.
use http.Base.{
  Bool-cases, ltb→le, inl, inr, ℕ, zero, suc, ◌+◌, ◌-◌, ◌%◌, ◌≤◌, ◌<◌, Bool, true, false, [], ◌∷◌,
  ◌++◌, ◌≡◌, refl, ◌∙◌, ap, sym, Bytes, ltb, ltb→lt, lt→ltb, le→ltb, length, take, drop, min, arith,
  append-nil,
}
use http.Ascii.{is_empty}
use http.Crc32.{crc32}
use http.Crc32.Streaming.{crc32-append}
use http.Headers.{Headers}
use http.Server.{pulled}
use http.Server.Producing.Contract.{Produces, ends, goes}
use http.App.{
  stream_producer, bytes_producer, pull, pull_stream, pull_bytes, after_line, set_trailers,
  chunk_line, alphabet, pattern, bytes_piece,
}

-- The lines of the chunks from `i` on, so many of them.
unfoldable pub chunk_lines : ℕ → ℕ → ℕ → Bytes
chunk_lines i zero n = []
chunk_lines i (suc k) n = chunk_line i n ++ chunk_lines (i + 1) k n

chunk_line-full : (i n : ℕ) → is_empty (chunk_line i n) ≡ false
unfolding chunk_line
chunk_line-full i n = refl

-- A call of the stream's producer: the last line, and one that is not the last.
stream_last :
    (i n crc : ℕ) (t : Headers)
    → i + 1 ≡ n
    → pull (stream_producer i n crc) t
      ≡ pulled
          (chunk_line i n)
          (set_trailers n (crc32 (chunk_line i n) crc) t)
          false
          (stream_producer (i + 1) n (crc32 (chunk_line i n) crc))
unfolding pull pull_stream after_line
stream_last i n crc t e =
    rw (lt→ltb i n (omega (arith, e)), le→ltb (i + 1) n (omega (arith, e)), after_line) refl

stream_more :
    (i n crc : ℕ) (t : Headers)
    → i + 1 < n
    → pull (stream_producer i n crc) t
      ≡ pulled (chunk_line i n) t true (stream_producer (i + 1) n (crc32 (chunk_line i n) crc))
unfolding pull pull_stream after_line
stream_more i n crc t l = rw (lt→ltb i n (omega (arith, l)), lt→ltb (i + 1) n l, after_line) refl

stream_lines :
    (k i n crc : ℕ) (t : Headers)
    → i + suc k ≡ n
    → Produces pull
        (stream_producer i n crc)
        t
        (chunk_lines i (suc k) n)
        (set_trailers n (crc32 (chunk_lines i (suc k) n) crc) t)
unfolding chunk_lines
stream_lines zero i n crc t e =
    rw (append-nil (chunk_line i n)) (ends (stream_last i n crc t (omega (arith, e))))
stream_lines (suc k) i n crc t e =
    let line = chunk_line i n in
    rw (crc32-append line (chunk_line (i + 1) n ++ chunk_lines (i + 1 + 1) k n) crc) (
      goes (stream_more i n crc t (omega (arith, e))) (chunk_line-full i n)
        (stream_lines k (i + 1) n (crc32 line crc) t (omega (arith, e))))

-- The body of /stream/{n} has the `n` lines in their order, and its trailers have `n` and the checksum
-- of all of the body, though each call of the producer sees one line. The producer is done after
-- finitely many calls, and has given a byte in each but the last.
pub stream-Produces :
    (n : ℕ) (t : Headers)
    → Produces pull
        (stream_producer 0 n 0)
        t
        (chunk_lines 0 n n)
        (set_trailers n (crc32 (chunk_lines 0 n n) 0) t)
unfolding pull pull_stream after_line chunk_lines crc32
stream-Produces zero t = ends refl
stream-Produces (suc n) t = stream_lines n 0 (suc n) 0 t (omega arith)

pub length-alphabet : (i n : ℕ) → length (alphabet i n) ≡ n
unfolding alphabet
length-alphabet i zero = refl
length-alphabet i (suc n) = omega (arith, length-alphabet (i + 1) n)

-- It repeats after 26 bytes.
alphabet-again : (i j n : ℕ) → i % 26 ≡ j % 26 → alphabet i n ≡ alphabet j n
unfolding alphabet
alphabet-again i j zero e = refl
alphabet-again i j (suc n) e = rw (e, alphabet-again (i + 1) (j + 1) n (omega (arith, e))) refl

alphabet_at : (i j m n : ℕ) → i ≡ j → m ≡ n → alphabet i m ≡ alphabet j n
alphabet_at i j m n e f = rw (e, f) refl

drop-alphabet : (k i n : ℕ) → drop k (alphabet i n) ≡ alphabet (i + k) (n - k)
unfolding alphabet
drop-alphabet zero i n = alphabet_at i (i + 0) n (n - 0) (omega arith) (omega arith)
drop-alphabet (suc k) i zero = alphabet_at (i + suc k) (i + suc k) 0 (0 - suc k) refl (omega arith)
drop-alphabet (suc k) i (suc n) =
    drop-alphabet k (i + 1) n
    ∙ alphabet_at (i + 1 + k) (i + suc k) (n - k) (suc n - suc k) (omega arith) (omega arith)

take-alphabet : (k i n : ℕ) → k ≤ n → take k (alphabet i n) ≡ alphabet i k
unfolding alphabet
take-alphabet zero i n l = refl
take-alphabet (suc k) i zero l = absurd (omega (arith, l))
take-alphabet (suc k) i (suc n) l =
    ap (λ s. (b'a' + i % 26) ∷ s) (take-alphabet k (i + 1) n (omega (arith, l)))

-- A call gives the next bytes of the alphabet.
bytes_piece-alphabet :
    (sent size : ℕ) → size ≤ bytes_piece → take size (drop (sent % 26) pattern) ≡ alphabet sent size
unfolding pattern
bytes_piece-alphabet sent size l = rw (drop-alphabet (sent % 26) 0 (bytes_piece + 26)) (
    take-alphabet size (0 + sent % 26) (bytes_piece + 26 - sent % 26) (omega (arith, l))
    ∙ alphabet-again (0 + sent % 26) sent size (omega arith))

alphabet-append : (i m n : ℕ) → alphabet i (m + n) ≡ alphabet i m ++ alphabet (i + m) n
unfolding alphabet
alphabet-append i zero n = alphabet_at i (i + 0) (0 + n) n (omega arith) (omega arith)
alphabet-append i (suc m) n =
    alphabet_at i i (suc m + n) (suc (m + n)) refl (omega arith)
    ∙ ap (λ s. (b'a' + i % 26) ∷ s)
        (alphabet-append (i + 1) m n
          ∙ ap (λ s. alphabet (i + 1) m ++ s)
              (alphabet_at (i + 1 + m) (i + suc m) n n (omega arith) refl))

alphabet-full : (i n : ℕ) → 0 < n → is_empty (alphabet i n) ≡ false
unfolding alphabet
alphabet-full i zero l = absurd (omega (arith, l))
alphabet-full i (suc n) l = refl

-- A call of the producer.
bytes_call :
    (sent n : ℕ) (t : Headers) (size : ℕ) (more : Bool)
    → min (n - sent) bytes_piece ≡ size
    → ltb (sent + size) n ≡ more
    → pull (bytes_producer sent n) t
      ≡ pulled (alphabet sent size) t more (bytes_producer (sent + size) n)
unfolding pull pull_bytes
bytes_call sent n t size more e f =
    rw (e, f, bytes_piece-alphabet sent size (omega (arith, e))) refl

-- A call and those after it.
bytes_turn :
    (sent n : ℕ) (t : Headers)
    → sent ≤ n
    → ((size : ℕ)
        → 0 < size
        → sent + size < n
        → Produces pull
            (bytes_producer (sent + size) n)
            t
            (alphabet (sent + size) (n - (sent + size)))
            t)
    → Produces pull (bytes_producer sent n) t (alphabet sent (n - sent)) t
bytes_turn sent n t l later =
    let size = min (n - sent) bytes_piece in
    elim (Bool-cases (ltb (sent + size) n)) [
      | inr e ↦
          let all : size ≡ n - sent = omega (arith, l, ltb→le (sent + size) n e) in
          rw (sym all) (ends (bytes_call sent n t size false refl e))
      | inl e ↦
          let m = ltb→lt (sent + size) n e in
          let split =
            alphabet_at sent sent (n - sent) (size + (n - (sent + size))) refl (omega (arith, m))
            ∙ alphabet-append sent size (n - (sent + size)) in
          rw split (
            goes (bytes_call sent n t size true refl e) (alphabet-full sent size (omega (arith, m)))
              (later size (omega (arith, m)) m))
    ]

bytes_rest :
    (k sent n : ℕ) (t : Headers)
    → sent ≤ n
    → n ≤ sent + k
    → Produces pull (bytes_producer sent n) t (alphabet sent (n - sent)) t
bytes_rest zero sent n t l m = bytes_turn sent n t l λ size p q. absurd (omega (arith, p, q, m))
bytes_rest (suc k) sent n t l m =
    bytes_turn sent n t l
      λ size p q. bytes_rest k (sent + size) n t (omega (arith, q)) (omega (arith, p, m))

-- The body of /bytes/{n} is `n` bytes of the alphabet, over and over, and no trailers are set. The
-- producer is done after finitely many calls, and has given a byte in each but the last.
pub bytes-Produces : (n : ℕ) (t : Headers) → Produces pull (bytes_producer 0 n) t (alphabet 0 n) t
bytes-Produces n t =
    rw (alphabet_at 0 0 n (n - 0) refl (omega arith))
      (bytes_rest n 0 n t (omega arith) (omega arith))
