-- ===== src/Tests/Apps.antt =====
-- The routes of the application, its producers and the command line, at concrete inputs.
use http.Base.{ℕ, [], ◌∷◌, ◌++◌, some, none, true, false, ◌≡◌, ◌⊎◌, refl, arith, codes}
use http.Request.{Request, empty_request, default_limits}
use http.Parser.Numbers.{is_digit}
use http.Response.{empty_response}
use http.Router.{dispatch}
use http.Crc32.{crc32}
use http.Server.{Connection, new_connection}
use http.Server.Producing.{refill_from_producer}
use http.Server.Producing.Contract.{Produces, Ahead, Sent, Sending, refill_from_producer-Sending}
use http.StaticFiles.Serving.{Kernel, other_error}
use http.App.{
  Producer, bytes_producer, stream_producer, pull, alphabet, set_trailers, json_escape, parse_u64,
}
use http.App.Producers.{chunk_lines, stream-Produces, bytes-Produces}
use http.App.Escapes.{read_string, printable, read_string-json_escape}
use http.App.Routes.{App, install_routes}
use http.App.Routes.Answers.{WellFramed, dispatch-WellFramed}
use http.CommandLine.{Options, default_options, options_loop, starts}
use http.CommandLine.Printing.{print_options, options_loop-print_options}

number_read : parse_u64 (codes "0042") ≡ some 42
unfolding parse_u64 is_digit
number_read = refl

stream-Produces_example :
    Produces pull
      (stream_producer 0 2 0)
      []
      (chunk_lines 0 2 2)
      (set_trailers 2 (crc32 (chunk_lines 0 2 2) 0) [])
stream-Produces_example = stream-Produces 2 []

read_string-json_escape_example :
    read_string (json_escape (codes "a\"b") ++ (b'"' ∷ codes "}"))
    ≡ some (printable (codes "a\"b"), codes "}")
read_string-json_escape_example = read_string-json_escape (codes "a\"b") (codes "}")

-- A connection that is to send three bytes of the alphabet.
abbrev three_bytes : Connection Producer
three_bytes =
    record (new_connection (record { recvs = []; sends = []; sendfiles = []; wire = [] })
      default_limits 0) {
        producer = some (bytes_producer 0 3);
        stream_sized = true;
        stream_left = 3;
      }

three_bytes-Sending : Sending pull three_bytes (alphabet 0 3) []
unfolding alphabet
three_bytes-Sending = record {
  sized = record { sized = refl; plain = refl };
  left = refl;
  source = bytes_producer 0 3;
  active = refl;
  body_follows = bytes-Produces 3 [];
}

refill_from_producer-Sending_example :
    (d : Connection Producer) × (refill_from_producer pull three_bytes ≡ some d)
    × (Ahead pull three_bytes d (alphabet 0 3) []
        ⊎ (Sent pull three_bytes d (alphabet 0 3) × (d.producer ≡ none)))
refill_from_producer-Sending_example =
    refill_from_producer-Sending pull three_bytes (alphabet 0 3) [] three_bytes-Sending

abbrev no_files : Kernel ℕ
no_files = record {
  open_dir = λ k path. (other_error, k);
  openat2 = none;
  openat = λ k dirfd path. (other_error, k);
  fstat = λ k fd. none;
}

abbrev small_app : App ℕ
small_app = record {
  metrics_text = codes "";
  info = record {
    pid = 1;
    workers = 1;
    pinned = false;
    port = 80;
    online_cpus = 1;
    page_size = 4096;
    sysname = codes "Linux";
    release = codes "6";
    machine = codes "x";
    compiler = codes "12";
    cplusplus = 201703;
    static_root = codes "public";
    limits = default_limits;
  };
  kernel = no_files;
  files = some 3;
  io = record { state = 0; asked = []; opened = []; closed = [] };
}

abbrev bytes_request : Request
bytes_request = record empty_request { method = codes "GET"; path = codes "/bytes/70000" }

dispatch-WellFramed_example :
    WellFramed small_app (dispatch (install_routes small_app []) bytes_request empty_response)
dispatch-WellFramed_example = dispatch-WellFramed small_app bytes_request tt

abbrev pinned_options : Options
pinned_options = record default_options { port = 80; pin_threads = true }

options_loop-print_options_example :
    options_loop (print_options pinned_options) default_options ≡ starts pinned_options
options_loop-print_options_example =
    options_loop-print_options pinned_options default_options
      (record {
        port_fits = omega arith;
        threads_fit = omega arith;
        idle_fits = omega arith;
        header_fits = omega arith;
        body_fits = omega arith;
      })
      refl

-- A negative number is read as one of 64 bits.
negative_body :
    options_loop (codes "--max-body" ∷ codes "-1" ∷ []) default_options
    ≡ starts (record default_options { max_body_bytes = 18446744073709551615 })
unfolding options_loop is_digit
negative_body = refl
