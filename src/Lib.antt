-- ===== src/Lib.antt =====
-- The HTTP proxy of proxy_http: its byte buffers, the helpers that its parsers share, the parsers of
-- requests and of responses, the selector that calls the handlers, and the configurations and
-- messages of its administration.
--
-- The proxy reads what a client sends into a buffer, runs the request parser over it, which passes
-- the request on to a second buffer and calls back with the origin's host and port as soon as it
-- knows them, and sends the second buffer to the origin. The response parser passes the answer on
-- in the same way, or its body to a transformation. All of it is non-blocking: whenever the input
-- gives out in the middle of a word or a number, the helper that reads it puts what it has read
-- back in front of the unread bytes, in a reserved zone of the buffer, and the parser is called
-- again when more bytes have arrived. What waits is a descriptor registered with the selector, whose
-- handlers are called when select(2) says it is ready, and change its interest by calls of the
-- selector.
--
-- The files and the code:
--
-- - Base: Boolean tests, C arrays as lists, `int`s, and the functions of <ctype.h>.
-- - Buffer: proxy_http/src/buffer/buffer.c. A pointer is its offset from `data`, a function that
--   updates `*b` returns the new buffer, and a failed assert is `none`. Buffer/Deque.antt is what
--   the buffer promises, Buffer/Refine.antt, Compact, Asserts, Invariant and Reach are about that
--   promise, and Buffer/Receive.antt is how the handlers of
--   proxy_http/src/client/client_handlers.c fill a buffer from a descriptor.
-- - ParserUtils: proxy_http/src/myParserUtils/myParserUtils.c. `Io` holds the arguments `b`, `bOut`
--   and `*bEmpty` of its functions: `matchFormat` is `match_format`, `getNumber` is `get_number`,
--   and so on. ParserUtils/Streams.antt describes a pair of buffers by the bytes in them.
-- - RequestParser: proxy_http/src/request_parser/requestParser.c, the data in RequestParser.antt,
--   the functions of the request line and of the headers in StartLine and Headers, and
--   `checkRequestInner` and `checkRequest` in Machine. The calls of `hostCallback` are the list
--   `calls` of a `Run`.
-- - ResponseParser: proxy_http/src/response_parser/responseParser.c, in the same way: the functions
--   of the start line and the headers in Headers, those of the body in Body, `checkResponseInner`
--   and `checkResponse` in Machine.
-- - Serializer: proxy_http/src/serializer/serializer.c, the messages of the administration protocol. What
--   `malloc` gives for a string, with what the memory holds, is an argument.
-- - MsgQueue: proxy_http/src/msg_queue/msg_queue.c, the replies that wait for the administrator. The
--   nodes are a list in the order of their allocation, and a pointer is a place in it.
-- - Config: proxy_http/src/config/config.c, the configurations in Config.antt and the reader of the
--   file in Config/File.antt.
-- - Chunks: proxy_http/src/client/chunks.c, which writes the chunks of a transformed body into the
--   client's buffer.
-- - Client: proxy_http/src/client/client.c, client_handlers.c, remote_handlers.c and
--   transformation_handlers.c there: the state and the end of a client in Client.antt, its making in
--   Creation, what is about the origin in Origin, the handlers that send in Senders, and those that
--   receive in Readers. A handler gives the client behind it, the bytes it wrote, and its calls of the
--   selector, the metrics and the system in order; `none` is a fault, the use of freed memory included.
-- - Metric: proxy_http/src/metric/metric.c, with the arithmetic of `double` as an argument.
-- - Admin: proxy_http/src/admin_actions/admin_actions.c and
--   proxy_http/src/admin_handlers/admin_handlers.c, which work on the configurations, the metrics and
--   the queue. `admin_read_handler` gets the bytes received as an argument, and
--   `admin_write_handler` gives those it sends, if `sctp_sendmsg` succeeds. The state says which of
--   the `malloc`s that the code tests give NULL; the others are taken to return memory.
-- - Selector: proxy_http/src/selector/selector.c. The table of items and its size in Selector.antt,
--   what is kept up to date besides an item in Items, `selector_register`, `selector_unregister_fd`
--   and `selector_set_interest` in Register, and `selector_select` with the callbacks it makes in
--   Dispatch. The callbacks are functions on the selector, in place of those of the program;
--   Interests is what a callback that changes an interest keeps.
-- - Log: proxy_http/src/logger/logger.c, the buffer in Log.antt and the thread in Log/Thread.antt; what
--   goes through the pipe is an argument. CStrings: what client.c and logger.c use of <string.h>.
--
-- Numbers are natural numbers; an `int` is its bit pattern, below 2^32, and a byte is a number that
-- no theorem needs to be below 256. A loop that reads a byte in each round is recursion on the
-- count of unread bytes, which bounds its rounds; the digits of a number are at most 10, or 8 in
-- base 16. The loops of `checkRequestInner` and `checkResponseInner` are recursion on a number of
-- rounds given, and the result is `none` if they are too few; how many are enough is the subject
-- of RequestParser/Progress.antt and ResponseParser/Progress.antt.
--
-- The rounds of `next_capacity` are as many as its number has bits, 64 at most.
--
-- Not modelled: the start of the program and of the processes of transformations, the formatting of
-- log messages, and what goes through `printf`; that a `malloc` fails whose result the code does not
-- test, which it does not survive. Of the selector, its destruction, a null selector, the signals and
-- the lock for other threads are left out; an item is found by its index again behind a callback,
-- where the code keeps its address, which a callback that enlarges the table would change: the table
-- for 1024 descriptors that main.c makes is never enlarged.
pub mod Base
pub mod Buffer
pub mod ParserUtils
pub mod RequestParser
pub mod ResponseParser
pub mod Serializer
pub mod Admin
pub mod Chunks
pub mod CStrings
pub mod Client
pub mod Log
pub mod Config
pub mod Metric
pub mod MsgQueue
pub mod Selector
