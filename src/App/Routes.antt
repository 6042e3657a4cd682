-- ===== src/App/Routes.antt =====
-- `install_routes` of src/app/routes.cpp: the handlers, and the routes that it adds in their order.
pub mod Answers
use http.Base.{
  ℕ, ◌+◌, ◌*◌, ◌^◌, Bool, true, false, not, ◌&&◌, ◌||◌, List, [], ◌∷◌, ◌++◌, Option, none, some,
  Bytes, codes, ltb, if◌then◌else◌, drop, take,
}
use http.Headers.{Headers, get, set}
use http.Request.{Request, ParserLimits}
use http.Response.{Response, text, plain_text, to_decimal}
use http.Router.{Route, Handled, returned, add, add_prefix}
use http.App.{
  Producer, stream_producer, bytes_producer, parse_u64, json_escape, max_stream_chunks,
  max_generated_bytes,
}
use http.StaticFiles.Serving.{Kernel, Io, serve}
use http.UniqueFd.{UniqueFd}

-- `kIndex`.
abbrev pub index_text : Bytes
index_text =
    codes "httpd-cpp: an epoll-based HTTP/1.1 server in C++17\n"
    ++ codes "\n"
    ++ codes "  GET  /healthz         liveness probe\n"
    ++ codes "  GET  /metrics         Prometheus metrics (per-worker counters, latency histogram)\n"
    ++ codes "  GET  /debug/info      build, kernel and runtime information (JSON)\n"
    ++ codes "  POST /echo            echoes the request body (Content-Length or chunked)\n"
    ++ codes "  GET  /stream/{n}      n chunks via chunked encoding + CRC-32 trailer\n"
    ++ codes "  GET  /bytes/{n}       n bytes streamed with backpressure (throughput tests)\n"
    ++ codes "  GET  /static/{path}   files from --root, zero-copy with sendfile(2)\n"

-- What /debug/info prints of the process, the machine and the configuration.
pub record DebugInfo : Type 0 where
  pub pid : ℕ
  pub workers : ℕ
  pub pinned : Bool
  pub port : ℕ
  pub online_cpus : ℕ
  pub page_size : ℕ
  pub sysname : Bytes
  pub release : Bytes
  pub machine : Bytes
  pub compiler : Bytes
  pub cplusplus : ℕ
  pub static_root : Bytes
  pub limits : ParserLimits

-- `std::snprintf` into 1024 bytes, one of them for the NUL.
unfoldable pub debug_text : DebugInfo → Bytes
unfolding json_escape
debug_text d = take 1023 (
    codes "{\"pid\":"
    ++ to_decimal d.pid
    ++ codes ",\"workers\":"
    ++ to_decimal d.workers
    ++ codes ",\"pinned\":"
    ++ (if d.pinned then codes "true" else codes "false")
    ++ codes ",\"port\":"
    ++ to_decimal d.port
    ++ codes ",\"online_cpus\":"
    ++ to_decimal d.online_cpus
    ++ codes ",\"page_size\":"
    ++ to_decimal d.page_size
    ++ codes ",\"kernel\":\""
    ++ json_escape d.sysname
    ++ codes " "
    ++ json_escape d.release
    ++ codes " "
    ++ json_escape d.machine
    ++ codes "\",\"compiler\":\""
    ++ json_escape d.compiler
    ++ codes "\",\"cplusplus\":"
    ++ to_decimal d.cplusplus
    ++ codes ",\"static_root\":\""
    ++ json_escape d.static_root
    ++ codes "\",\"limits\":{\"max_request_line\":"
    ++ to_decimal d.limits.max_request_line
    ++ codes ",\"max_header_bytes\":"
    ++ to_decimal d.limits.max_header_bytes
    ++ codes ",\"max_body_bytes\":"
    ++ to_decimal d.limits.max_body_bytes
    ++ codes "}}\n")

-- What the handlers read of the server and of the kernel when they are called.
pub record App {ℓ} (K : Type ℓ) : Type ℓ where
  pub metrics_text : Bytes
  pub info : DebugInfo
  pub kernel : Kernel K
  pub files : UniqueFd
  pub io : Io K

abbrev pub octets : Bytes
octets = codes "application/octet-stream"

abbrev or_octets : Option Bytes → Bytes
or_octets none = octets
or_octets (some type) = type

-- The handlers of `/stream/` and `/bytes/`. A path that these routes match has the bytes that are
-- dropped.
unfoldable pub stream_usage : Response Producer
unfolding text
stream_usage =
    text 400 (codes "usage: /stream/{0.." ++ to_decimal max_stream_chunks ++ codes "}\n") plain_text

unfoldable pub handle_stream : Request → Response Producer → Response Producer
unfolding parse_u64 set stream_usage
handle_stream req res = elim (parse_u64 (drop 8 req.path)) [
  | none ↦ stream_usage
  | some n ↦ if ltb max_stream_chunks n then stream_usage else record res {
    headers =
        set (set res.headers (codes "Content-Type") plain_text) (codes "Trailer")
          (codes "X-Chunk-Count, X-Content-CRC32");
    producer = some (stream_producer 0 n 0);
  }
]

unfoldable pub bytes_usage : Response Producer
unfolding text
bytes_usage =
    text 400 (codes "usage: /bytes/{0.." ++ to_decimal max_generated_bytes ++ codes "}\n")
      plain_text

unfoldable pub handle_bytes : Request → Response Producer → Response Producer
unfolding parse_u64 set bytes_usage
handle_bytes req res = elim (parse_u64 (drop 7 req.path)) [
  | none ↦ bytes_usage
  | some n ↦ if ltb max_generated_bytes n then bytes_usage else record res {
    headers = set res.headers (codes "Content-Type") octets;
    stream_length = some n;
    producer = some (bytes_producer 0 n);
  }
]

unfoldable pub handle_echo : Request → Response Producer
unfolding text get
handle_echo req = text 200 req.body (or_octets (get req.headers (codes "Content-Type")))

module _ {ℓ} {K : Type ℓ} (app : App K) where
  unfoldable pub handle_static : Request → Response Producer → Response Producer
  unfolding serve
  handle_static req res = (serve app.kernel app.files (drop 8 req.path) res app.io).0

  unfoldable pub install_routes : List (Route Producer) → List (Route Producer)
  unfolding add add_prefix text debug_text handle_echo handle_stream handle_bytes handle_static
  install_routes r =
      let r =
        add r (codes "GET") (codes "/") (λ req res. returned (text 200 index_text plain_text)) in
      let r =
        add r (codes "GET") (codes "/healthz")
          (λ req res. returned (text 200 (codes "ok\n") plain_text)) in
      let r = add r (codes "GET") (codes "/metrics") (λ req res.
        returned (text 200 app.metrics_text (codes "text/plain; version=0.0.4; charset=utf-8"))) in
      let r =
        add r (codes "GET") (codes "/debug/info")
          (λ req res. returned (text 200 (debug_text app.info) (codes "application/json"))) in
      let r = add r (codes "POST") (codes "/echo") (λ req res. returned (handle_echo req)) in
      let r =
        add_prefix r (codes "GET") (codes "/stream/")
          (λ req res. returned (handle_stream req res)) in
      let r =
        add_prefix r (codes "GET") (codes "/bytes/") (λ req res. returned (handle_bytes req res)) in
      add_prefix r (codes "GET") (codes "/static/") (λ req res. returned (handle_static req res))
