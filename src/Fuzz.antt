-- ===== src/Fuzz.antt =====
-- fuzz/fuzz_request_parser.cpp: the fuzz target, which feeds the parser one input in three ways and
-- compares what comes out. `__builtin_trap` is a result of its own.
pub mod Draining
pub mod Joining
pub mod Running
use http.Base.{
  ℕ, zero, suc, ◌+◌, ◌-◌, ◌*◌, ◌%◌, Bool, true, false, not, ◌&&◌, ◌||◌, List, [], ◌∷◌, ◌++◌, Option,
  none, some, Bytes, codes, ltb, ◌==◌, if◌then◌else◌, length, take, drop, equal, min,
}
use http.Ascii.{is_empty}
use http.Headers.{Field, Headers}
use http.Request.{Request, ParserLimits, status_for}
use http.Parser.{RequestParser, new_parser, failed, is_done_parser, take_request}
use http.Parser.Feed.{feed}
use http.Response.{to_decimal}

pub record Outcome : Type 0 where
  pub requests : List Bytes
  pub final_status : ℕ

abbrev pub equal_all : List Bytes → List Bytes → Bool
equal_all [] [] = true
equal_all [] (y ∷ ys) = false
equal_all (x ∷ xs) [] = false
equal_all (x ∷ xs) (y ∷ ys) = equal x y && equal_all xs ys

-- `Outcome::operator==`.
abbrev pub same_outcome : Outcome → Outcome → Bool
same_outcome a b = equal_all a.requests b.requests && a.final_status == b.final_status

-- `k + ':' + v + '|'` for each field.
abbrev digest_fields : Headers → Bytes
digest_fields [] = []
digest_fields ((k, v) ∷ fs) = k ++ codes ":" ++ v ++ codes "|" ++ digest_fields fs

unfoldable pub digest : Request → Bytes
digest r =
    r.method
    ++ codes " "
    ++ r.target
    ++ codes " "
    ++ to_decimal r.version_minor
    ++ codes "|"
    ++ digest_fields r.headers
    ++ to_decimal (length r.body)
    ++ codes ":"
    ++ r.body
    ++ codes "|"
    ++ digest_fields r.trailers

-- The limits of `run`.
abbrev pub fuzz_limits : ParserLimits
fuzz_limits = record {
  max_request_line = 512;
  max_header_bytes = 2048;
  max_header_count = 32;
  max_body_bytes = 4096;
  max_chunk_line = 64;
}

-- How `run`, or its inner loop, is left: by a trap, or by `return out`.
pub data Ran : Type 0 where
  trapped : Ran
  returned : Outcome → Ran

-- What the inner loop leaves: `run` is over, or the loop was left by `break`, with the parser, `buf`
-- and `out.requests`.
pub data Drained : Type 0 where
  over : Ran → Drained
  waiting : RequestParser → Bytes → List Bytes → Drained

-- One turn of the inner loop leaves it, or goes on.
pub data Turn : Type 0 where
  leave : Drained → Turn
  again : RequestParser → Bytes → List Bytes → Turn

-- A request that was taken off the parser.
unfoldable pub push_digest : Request × RequestParser → Bytes → List Bytes → Turn
unfolding digest
push_digest (r, p) buf requests =
    if ltb fuzz_limits.max_body_bytes (length r.body)
    then leave (over trapped)
    else again p buf (requests ++ (digest r ∷ []))

-- The turn once `feed` has returned the parser `p` and `used`.
unfoldable pub after_feed : RequestParser → ℕ → Bytes → List Bytes → Turn
unfolding push_digest status_for take_request
after_feed p used buf requests =
    let rest = drop used buf in
    if ltb (length buf) used
    then leave (over trapped)
    else if failed p
    then leave
        (over (returned (record { requests = requests; final_status = status_for p.error_code })))
    else if not (is_done_parser p)
    then leave (waiting p rest requests)
    else push_digest (take_request p) rest requests

-- The inner `for (;;)` on fuel; `none` means that the fuel ran out.
unfoldable pub drain_loop : ℕ → RequestParser → Bytes → List Bytes → Option Drained
unfolding feed after_feed
drain_loop zero p buf requests = none
drain_loop (suc fuel) p buf requests = elim (feed p buf) [
  | none ↦ none
  | some (q, used) ↦ elim (after_feed q used buf requests) [
    | leave d ↦ some d
    | again p' buf' requests' ↦ drain_loop fuel p' buf' requests'
  ]
]

-- A request uses up a byte, but for one that was there at the start.
unfoldable pub drain : RequestParser → Bytes → List Bytes → Option Drained
unfolding drain_loop
drain p buf requests = drain_loop (length buf + 2) p buf requests

-- The outer `while` on fuel, from the position `pos` of the input.
unfoldable pub run_loop : ℕ → ℕ → Bytes → ℕ → RequestParser → Bytes → List Bytes → Option Ran
unfolding drain
run_loop zero step input pos p buf requests = none
run_loop (suc fuel) step input pos p buf requests = elim (ltb pos (length input)) [
  | false ↦ some (returned (record { requests = requests; final_status = 0 }))
  | true ↦
      let n = min step (length input - pos) in
      elim (drain p (buf ++ take n (drop pos input)) requests) [
        | none ↦ none
        | some (over r) ↦ some r
        | some (waiting q rest requests') ↦ run_loop fuel step input (pos + n) q rest requests'
      ]
]

unfoldable pub run : Bytes → ℕ → Option Ran
unfolding run_loop
run input step = run_loop (length input + 1) step input 0 (new_parser fuzz_limits) [] []

-- How the target ends.
pub data TargetEnd : Type 0 where
  passes traps : TargetEnd

abbrev compare : Ran → Ran → Ran → TargetEnd
compare (returned whole) (returned bytewise) (returned chunked) =
    if not (same_outcome whole bytewise) || not (same_outcome whole chunked) then traps else passes
compare _ _ _ = traps

-- `LLVMFuzzerTestOneInput`: the first byte of the data chooses the step, the others are the input.
unfoldable pub test_one_input : Bytes → Option TargetEnd
unfolding run
test_one_input [] = some passes
test_one_input (x ∷ input) =
    let step = x % 17 + 1 in
    let all_at_once = if is_empty input then 1 else length input in
    elim (run input all_at_once) [
      | none ↦ none
      | some whole ↦ elim (run input 1) [
        | none ↦ none
        | some bytewise ↦ elim (run input step) [
          | none ↦ none
          | some chunked ↦ some (compare whole bytewise chunked)
        ]
      ]
    ]
