-- ===== src/Tests/Fuzzing.antt =====
-- The fuzz target and the limit of a body, at concrete inputs.
use http.Base.{ℕ, ◌∷◌, ◌*◌, some, ◌≡◌, refl, arith, Bytes, codes}
use http.Request.{default_limits}
use http.Parser.{RequestParser, new_parser}
use http.Parser.Feed.Bodies.{HasRoom}
use http.Parser.Feed.Halting.{feed_total}
use http.Parser.Feed.Rooms.{feed-HasRoom}
use http.Response.{to_chars_loop}
use http.Fuzz.{test_one_input, passes, run, returned}
use http.Fuzz.Running.{test_one_input-passes}

-- A chunk that is not yet there in full.
abbrev chunk_input : Bytes
chunk_input =
    codes "POST / HTTP/1.1\r\nHost: x\r\nTransfer-Encoding: chunked\r\n\r\n3;q\r\nabc\r\n8\r\nT"

abbrev fresh : RequestParser
fresh = new_parser default_limits

feed-HasRoom_example : HasRoom (8 * 1024 * 1024) (feed_total fresh chunk_input).0
feed-HasRoom_example =
    feed-HasRoom (8 * 1024 * 1024) fresh (feed_total fresh chunk_input).0 chunk_input
      (feed_total fresh chunk_input).1 (omega arith) (refl, refl) (feed_total fresh chunk_input).2

-- Two requests, and what is left of a third.
abbrev fuzz_input : Bytes
fuzz_input =
    3
    ∷ codes
        "GET / HTTP/1.1\r\nHost: x\r\n\r\nPOST /a HTTP/1.1\r\nHost: x\r\nContent-Length: 1\r\n\r\nbGE"

two_requests :
    run (codes "GET / HTTP/1.1\r\nHost: x\r\n\r\nGET") 7
    ≡ some (
        returned
          (record { requests = codes "GET / 1|Host:x|0:|" ∷ http.Base.[]; final_status = 0 }))
unfolding run to_chars_loop
two_requests = refl

test_one_input-passes_example : test_one_input fuzz_input ≡ some passes
test_one_input-passes_example = test_one_input-passes fuzz_input (omega arith)
