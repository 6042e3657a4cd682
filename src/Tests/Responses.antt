-- ===== src/Tests/Responses.antt =====
-- The serializer of responses, run at concrete inputs.
use http.Base.{ℕ, [], ◌∷◌, ◌++◌, List, some, false, ◌≡◌, refl, arith, Bytes, codes, length}
use http.Request.{default_limits}
use http.Parser.{RequestParser, new_parser, chunk_size, done}
use http.Parser.Feed.{feed}
use http.Response.{
  Response, text, HeadOptions, by_length, choose_framing, write_head, append_status, append_number,
  append_last_chunk,
}
use http.Response.Head.{render, head_fields}
use http.Response.Declared.{Declares, write_head-Declares}
use http.Response.Chunks.{append_chunks, joined, feed-append_chunks}

abbrev at_chunks : RequestParser
at_chunks = record (new_parser default_limits) { state = chunk_size }

abbrev pieces : List Bytes
pieces = codes "hello, " ∷ [] ∷ codes "world and all" ∷ []

abbrev sent : Bytes
sent = append_last_chunk (append_chunks [] pieces) []

sent_run : sent ≡ codes "7\r\nhello, \r\nd\r\nworld and all\r\n0\r\n\r\n"
unfolding append_chunks append_last_chunk
sent_run = refl

feed-append_chunks_example :
    feed at_chunks sent
    ≡ some (
      record at_chunks {
        req = record at_chunks.req { body = joined pieces };
        header_bytes = 2;
        state = done;
      },
      length sent,
    )
feed-append_chunks_example = feed-append_chunks at_chunks pieces refl refl (
    unfold joined in
    record {
      line_fits = omega arith;
      trailer_fits = omega arith;
      trailer_small = omega arith;
      body_fits = omega arith;
      body_small = omega arith;
    })

abbrev greeting : Response ℕ
greeting = text 200 (codes "hi") (codes "text/plain")

abbrev closing : HeadOptions
closing = record { keep_alive = false; http10_client = false; date = codes "now" }

head_run : write_head [] greeting closing ≡ (
  codes
      "HTTP/1.1 200 OK\r\nContent-Type: text/plain\r\nServer: httpd-cpp\r\nDate: now\r\nContent-Length: 2\r\nConnection: close\r\n\r\n",
  by_length,
)
unfolding write_head text
head_run = refl

write_head-Declares_example :
    ((write_head [] greeting closing).0
      ≡ append_status [] 200 ++ (render (head_fields greeting closing by_length 2) ++ codes "\r\n"))
    × ((write_head [] greeting closing).1 ≡ by_length)
    × Declares
        (head_fields greeting closing by_length 2)
        (append_number [] 2 10 ∷ [])
        []
        (codes "close" ∷ [])
unfolding text choose_framing
write_head-Declares_example = write_head-Declares [] greeting closing
