-- ===== src/Loadgen/Accounts.antt =====
-- The accounts of a client, and `consume_responses`, which returns and keeps them.
use native.Mathlib.Nat.{le_refl}
use http.Base.{
  ℕ, zero, suc, ◌+◌, ◌%◌, ◌^◌, ◌≤◌, ◌<◌, Bool, true, false, List, [], ◌∷◌, ◌≡◌, refl, Option,
  Option-cases, none, some, Bytes, codes, ltb, ltb→lt, ◌==◌, length, length-append, length-drop,
  take, find_str, arith, inl, inr, if_both, if_each,
}
use http.Metrics.{bump}
use http.Loadgen.{
  Setup, Client, read_clock, enqueue, latency_since, note_response, ask_again, account_response,
  head_loop, Consuming, waits, refuses, exits, consumes, sized_round, on_head, consume_round, Ended,
  continues, fails, exited, consume_loop,
}

-- No more requests are in flight than the pipeline is deep, each response that is counted has its
-- latency noted, and what has been sent of the output is a part of it.
pub record Accounts (depth : ℕ) (x : Client) : Type 0 where
  pub in_flight : length x.conn.sent_at ≤ depth
  pub counted : x.stats.requests ≡ length x.stats.latencies_ns % 2 ^ 64
  pub offset : x.conn.out_off ≤ length x.conn.out

-- What may still be sent, by the requests in flight and the readings before the deadline.
abbrev pub work : Client → ℕ
work x = length x.conn.sent_at + length x.clock

read_clock_shorter : (deadline : ℕ) (ts : List ℕ) → length (read_clock deadline ts).1 ≤ length ts
read_clock_shorter deadline [] = le_refl _
read_clock_shorter deadline (t ∷ ts) = omega arith

-- A reading before the deadline is one of those that are still to come.
read_clock_early :
    (deadline : ℕ) (ts : List ℕ)
    → ltb (read_clock deadline ts).0 deadline ≡ true
    → length (read_clock deadline ts).1 < length ts
read_clock_early deadline [] e = absurd (omega (arith, ltb→lt deadline deadline e))
read_clock_early deadline (t ∷ ts) e = le_refl _

pub enqueue-Accounts :
    (depth : ℕ) (setup : Setup) (x : Client)
    → length x.conn.sent_at < depth
    → Accounts depth x
    → Accounts depth (enqueue setup x)
unfolding enqueue
enqueue-Accounts depth setup x l a = record {
  in_flight =
      omega (arith, l, length-append x.conn.sent_at ((read_clock setup.deadline x.clock).0 ∷ []));
  counted = a.counted;
  offset = omega (arith, a.offset, length-append x.conn.out setup.request);
}

work-enqueue : (setup : Setup) (x : Client) → work (enqueue setup x) ≤ work x + 1
unfolding enqueue
work-enqueue setup x = omega (
  arith,
  length-append x.conn.sent_at ((read_clock setup.deadline x.clock).0 ∷ []),
  read_clock_shorter setup.deadline x.clock,
)

-- A client and one that it becomes.
record Counts (depth : ℕ) (x y : Client) : Type 0 where
  pub kept : Accounts depth y
  pub less : work y < work x

note_response-Counts :
    (depth : ℕ) (setup : Setup) (good : Bool) (x : Client)
    → (length x.conn.sent_at == 0) ≡ false
    → Accounts depth x
    → Counts depth x (note_response setup good x)
      × (length (note_response setup good x).conn.sent_at < depth)
unfolding note_response bump
note_response-Counts depth setup good x n a =
    let some_sent : 0 < length x.conn.sent_at = ground (arith, n) in
    let fewer = length-drop 1 x.conn.sent_at in
    (
      record {
        kept = record {
          in_flight = omega (arith, a.in_flight, fewer);
          counted = omega (
            arith,
            a.counted,
            length-append x.stats.latencies_ns
                (latency_since (read_clock setup.deadline x.clock).0 x.conn.sent_at ∷ []),
          );
          offset = a.offset;
        };
        less = omega (arith, some_sent, fewer, read_clock_shorter setup.deadline x.clock);
      },
      omega (arith, a.in_flight, some_sent, fewer),
    )

ask_again-Counts :
    (depth : ℕ) (setup : Setup) (x : Client)
    → length x.conn.sent_at < depth
    → Accounts depth x
    → Accounts depth (ask_again setup x) × (work (ask_again setup x) ≤ work x)
unfolding ask_again
ask_again-Counts depth setup x l a =
    let y : Client = record x { clock = (read_clock setup.deadline x.clock).1 } in
    let kept : Accounts depth y = record {
      in_flight = a.in_flight;
      counted = a.counted;
      offset = a.offset;
    } in
    if_each (λ z. Accounts depth z × (work z ≤ work x))
      (ltb (read_clock setup.deadline x.clock).0 setup.deadline)
      (λ e. (
        enqueue-Accounts depth setup y l kept,
        omega (arith, work-enqueue setup y, read_clock_early setup.deadline x.clock e),
      ))
      (λ e. (kept, omega (arith, read_clock_shorter setup.deadline x.clock)))

account_response-Counts :
    (depth : ℕ) (setup : Setup) (good : Bool) (x : Client)
    → (length x.conn.sent_at == 0) ≡ false
    → Accounts depth x
    → Counts depth x (account_response setup good x)
account_response-Counts depth setup good x n a =
    let (noted, room) = note_response-Counts depth setup good x n a in
    let (kept, no_more) =
      ask_again-Counts depth setup (note_response setup good x) room noted.kept in
    record { kept = kept; less = omega (arith, noted.less, no_more) }

-- What a round leaves, if there are rounds after it.
abbrev Rounds : ℕ → Client → Consuming → Type 0
Rounds depth x waits = Unit
Rounds depth x refuses = Unit
Rounds depth x exits = Unit
Rounds depth x (consumes rest y) = Counts depth x y

sized_round-Rounds :
    (depth : ℕ) (setup : Setup) (rest : Bytes) (head_end size : ℕ) (x : Client)
    → Accounts depth x
    → Rounds depth x (sized_round setup rest head_end size x)
unfolding sized_round
sized_round-Rounds depth setup rest head_end size x a =
    if_both (Rounds depth x) (ltb (length rest) ((head_end + 4 + size) % 2 ^ 64)) tt (
      if_each (Rounds depth x) (length x.conn.sent_at == 0) (λ e. tt)
        (λ e. account_response-Counts depth setup _ x e a))

on_head-Rounds :
    (depth : ℕ) (setup : Setup) (rest : Bytes) (head_end : ℕ) (x : Client)
    → Accounts depth x
    → Rounds depth x (on_head setup rest head_end x)
unfolding on_head
on_head-Rounds depth setup rest head_end x a =
    let head = take head_end rest in
    if_both (Rounds depth x) (ltb (length head) 12) tt
      (by_length (head_loop (length head) head none))
  where
    by_length :
        (o : Option ℕ)
        → Rounds depth x (elim o as (λ _. Consuming) [
          | none ↦ exits
          | some size ↦ sized_round setup rest head_end size x
        ])
    by_length none = tt
    by_length (some size) = sized_round-Rounds depth setup rest head_end size x a

consume_round-Rounds :
    (depth : ℕ) (setup : Setup) (rest : Bytes) (x : Client)
    → Accounts depth x
    → Rounds depth x (consume_round setup rest x)
unfolding consume_round
consume_round-Rounds depth setup rest x a = elim (Option-cases (find_str (codes "\r\n\r\n") rest)) [
  | inl e ↦ rw (e, consume_round) tt
  | inr (head_end, e) ↦ rw (e, consume_round) (on_head-Rounds depth setup rest head_end x a)
]

abbrev pub EndedWell : ℕ → Ended → Type 0
EndedWell depth (continues y) = Accounts depth y
EndedWell depth (fails y) = Accounts depth y
EndedWell depth exited = Unit

-- The loop ends, with fuel for the work.
pub consume_loop-Ended :
    (fuel depth : ℕ) (setup : Setup) (rest : Bytes) (x : Client)
    → work x < fuel
    → Accounts depth x
    → (e : Ended) × (consume_loop fuel setup rest x ≡ some e) × EndedWell depth e
unfolding consume_loop
consume_loop-Ended zero depth setup rest x l a = absurd (omega (arith, l))
consume_loop-Ended (suc fuel) depth setup rest x l a =
    by_round (consume_round setup rest x) refl (consume_round-Rounds depth setup rest x a)
      (λ rest' y less kept.
        consume_loop-Ended fuel depth setup rest' y (omega (arith, l, less)) kept)
  where
    by_round :
        (r : Consuming)
        → consume_round setup rest x ≡ r
        → Rounds depth x r
        → ((rest' : Bytes) (y : Client)
            → work y < work x
            → Accounts depth y
            → (e : Ended) × (consume_loop fuel setup rest' y ≡ some e) × EndedWell depth e)
        → (e : Ended) × (consume_loop (suc fuel) setup rest x ≡ some e) × EndedWell depth e
    by_round waits e w later = (
      continues (record x { conn = record x.conn { input = rest } }),
      rw (consume_loop, e) refl,
      record { in_flight = a.in_flight; counted = a.counted; offset = a.offset },
    )
    by_round refuses e w later = (fails x, rw (consume_loop, e) refl, a)
    by_round exits e w later = (exited, rw (consume_loop, e) refl, tt)
    by_round (consumes rest' y) e w later =
        let (r, ran, ended) = later rest' y w.less w.kept in (r, rw (consume_loop, e) ran, ended)
