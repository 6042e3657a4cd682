-- ===== src/Lib.antt =====
-- httpd-cpp, an epoll-based HTTP/1.1 server: a model of its code and proofs about it.
--
-- The program reads bytes from a socket into a buffer, feeds them to an incremental parser
-- (src/http/request_parser.cpp), hands each finished request to a router, and serializes the response.
-- Each worker (src/server/server.cpp) runs a loop over the events of its connections. Modelled are the
-- worker with its connections, the buffer and the counters, the parser, the header list on which it
-- stands, the serializer, the router, the application's routes and static files, the command line, the
-- load generator and the fuzz target:
--
-- * Ascii (src/http/headers.cpp, the free functions): iequals, is_tchar, is_token, trim_ows.
-- * Headers (src/http/headers.cpp, the class): find, set, add, get, has, remove, has_token. A pointer
--   that find returns is a write to the first field of that name.
-- * Request (src/http/request_parser.hpp): Request, ParseError, ParserLimits and their functions.
-- * Parser (src/http/request_parser.cpp): the class RequestParser. Parser/Numbers has the decimal and
--   hexadecimal numbers, Parser/Lines parse_request_line and parse_field_line, Parser/Framing
--   finish_headers and parse_chunk_size, Parser/Feed the loop of feed, one function for each case of
--   its switch.
-- * Response (src/http/response.cpp): reason_phrase, Response::text, write_head, append_chunk and
--   append_last_chunk. The status is a natural number, the type of body producers a parameter, and an
--   open file its descriptor.
-- * Router (src/server/router.cpp): add, add_prefix and dispatch. A handler is a function that returns
--   the response or throws an exception with a message.
-- * StaticFiles (src/app/static_files.cpp): StaticFiles::sanitize, with the percent decoding;
--   StaticFiles/Serving has serve, mime_type and open_beneath, over a kernel that is a parameter.
-- * UniqueFd (src/util/unique_fd.hpp): the owner of a descriptor, with the list of those closed.
-- * App (src/app/routes.cpp): parse_u64, json_escape and the producers of /stream/ and /bytes/;
--   App/Routes has the handlers and install_routes.
-- * CommandLine (src/main.cpp): parse_number and the loop over the options.
-- * Loadgen (tools/loadgen.cpp): a connection of the load generator and the counters of its worker.
-- * Fuzz (fuzz/fuzz_request_parser.cpp): the fuzz target, its runs over the parser and its traps.
-- * ByteBuffer (src/util/byte_buffer.hpp): the class, over the list of the bytes in memory.
-- * Metrics (src/obs/metrics.hpp): the counters of a worker and the histogram of its latencies.
-- * Crc32 (src/util/crc32.cpp): the table and crc32.
-- * Server (src/server/server.cpp): the members of Connection and Server::Worker. Server/Date has
--   DateCache, Server/Reading do_read, Server/Producing refill_from_producer, Server/Writing do_write,
--   Server/Processing process, dispatch, queue_error and record_response, Server/Driving drive,
--   Server/Timers sweep, begin_drain and close_connection, Server/Events on_accept and run.
-- * Base holds what all share: Boolean tests, lists of bytes, std::string_view::find and substr.
-- * Tests holds runs at concrete inputs and the instances of the theorems.
--
-- A string is the list of its bytes, each a number below 256; an ASCII literal is written by codes.
-- A function that fails and returns false gives the parser in its error state and the flag false;
-- refuse_if and refuse_none are the early returns. Sums of sizes are taken modulo 2 ^ 64 wherever the
-- code compares them with a limit or stores them; a position within a string that is in memory does
-- not wrap and is left as it is.
--
-- The kernel is a parameter: a connection holds the answers that recv, send and sendfile give next,
-- and where there is none left the call would block. What has been sent is a list, of bytes and of
-- places in open files. epoll_wait is a list of events, each with the answers that come with it, and
-- a clock is a function of the number of its readings. A body producer is a value of the type P, and
-- a parameter says what a call of it gives; the text of a date is a parameter too. A step that changes
-- a connection and its worker takes and gives a Turn, which holds both and the flag progress.
--
-- Loops over the members of a list between commas run on fuel of the length of the value and one, since
-- each round drops a comma, and so does the loop over the segments of a path; the loop of feed runs on twice the length of the data and two, and is
-- proved never to run out. The loop of do_write runs on twice the number of the answers of the kernel
-- and three, which is proved to be enough, and that of refill_from_producer on the bytes that the
-- output lacks, since each round adds one; that of process on twice the bytes of the input and three, and that of drive
-- on a sum over the input and the answers of the kernel; both are proved to be enough. The digits of a number are written on fuel of 64, which is enough for 64 bits.
--
-- The inner loop of the fuzz target runs on the bytes in its buffer and two, and the outer one on the
-- bytes of the input and one; the loop of consume_responses runs on the requests in flight, the readings
-- of the clock before the deadline and one, since each round takes a request off and one is added only
-- after such a reading. All of these are proved to be enough. A handler of a route reads the state of
-- the kernel in which it is called, and gives the response only.
--
-- Not modelled: the making of sockets, the options of a socket, and the threads; the sink into which a
-- connection that closes drains what the client still sends; reserve and moves, which change no value;
-- the messages of the programs; the percentiles of the load generator, which are computed in floating
-- point; the unit tests, and the mutator of the stand-alone fuzzer.
pub mod Base
pub mod Ascii
pub mod Headers
pub mod Request
pub mod Parser
pub mod Response
pub mod Router
pub mod Metrics
pub mod Crc32
pub mod ByteBuffer
pub mod Fuzz
pub mod Server
pub mod UniqueFd
pub mod StaticFiles
pub mod App
pub mod CommandLine
pub mod Loadgen
mod Tests
