-- ===== src/Lib.antt =====
-- A verification library for yuyu, a C++ framework of fibers, timers, an epoll event loop and an
-- HTTP server. It models the parts of the program that keep state or transform data; the values of
-- the kernel and of other libraries are arguments.
--
-- * ByteArray (yuyu/bytearray.h, yuyu/bytearray.cc, yuyu/endian.h). `ByteArray.Chain` has the nodes
--   and the three loops over them, `ByteArray.Buffer` the object and `write`, `read`, `setPosition`,
--   `clear`, `addCapacity` and `toString`, and `ByteArray.Codec` the typed operations. The chain is
--   the list of its blocks; `m_cur` is the split of that list into the nodes before it and those
--   from it on, so that a null pointer is an empty second part, and following it is `fault`. A call
--   throws, faults or returns with the array behind it. The loops are structural in the number of
--   bytes or nodes left, so they need no fuel. `ByteArray.Buffer.File` is what the array promises: a
--   run of bytes with a position, as in a file.
-- * Timer (yuyu/timer.h, yuyu/timer.cc). A timer is an object behind a shared pointer that the set
--   of the manager orders by time and address, so the model has a store of timers by address and a
--   list of addresses. The clock, the address of a new object and the outcome of
--   `onTimerInsertedAtFront` are outside: the first two are arguments, and the third is a Boolean
--   that says whether it is called. The locks make each operation one step.
-- * Url (the percent encoding of yuyu/util.cc). The loops carry the string `ss` that is made only
--   when the first character changes.
-- * Text (the trimming functions and `Dirname` of yuyu/util.cc).
-- * IoManager (yuyu/iomanager.h, yuyu/iomanager.cc). The contexts of the descriptors, the count of
--   pending events and what is handed to the schedulers. The answer of `epoll_ctl` and the reports
--   of `epoll_wait` are arguments. `assertion_failed` is a YUYU_ASSERT that does not hold, and
--   `fault` what C++ leaves undefined. Each call holds the mutex of its descriptor, so it is one
--   step.
-- * Fd (yuyu/fd_manager.h, yuyu/fd_manager.cc, and the hooks of yuyu/hook.cc that change a context).
-- * Stream (yuyu/stream.h, yuyu/stream.cc). The loops of `readFixSize` and `writeFixSize` run on
--   fuel; the length is enough, since every round takes a byte at least. The virtual `read` and
--   `write` are arguments.
-- * Servlet (yuyu/http/servlet.h, yuyu/http/servlet.cc). The routing table; `fnmatch` and the
--   creators are arguments.
-- * HttpPool (yuyu/http/http_connection.h, yuyu/http/http_connection.cc). The pool of connections;
--   whether a socket is connected, and the opening of a new one, are arguments.
-- * HttpClient (the rest of these two files, and yuyu/uri.h). `recvResponse`, with a body of known
--   length, in chunks or until the end of the stream, and the requests, with the errors that they
--   end with. The generated parsers, the decoders of zlib and the connections are arguments. The
--   fuel is covered by what the stream can still give.
-- * Socket (yuyu/socket.h, yuyu/socket.cc) and TcpServer (yuyu/tcp_server.h, yuyu/tcp_server.cc).
--   The state of a socket, TLS included, and the sockets of a server. The system calls and OpenSSL
--   are a record of functions over a state; `Socket.Sample` is one such system that can be run. The
--   loop of `startAccept` runs until the server stops, so its number counts rounds.
-- * Fiber (yuyu/fiber.h, yuyu/fiber.cc). The states and the operations on them. The code of a fiber
--   is the finite tree of what the scheduler sees of it: what it schedules, where it yields, how it
--   ends; the saved context is the part of it that is left.
-- * Scheduler (yuyu/scheduler.h, yuyu/scheduler.cc). The queue, and the loop of `run` for one thread
--   with no other thread beside it: `run_loop`, whose number counts rounds of the loop. A YUYU_ASSERT
--   that fails is `none`.
-- * Hook (yuyu/hook.cc). `do_io` over a state of the system, with the original call, `addEvent` and
--   the wait of the fiber as arguments. The fuel of `retry` is covered by a measure that each
--   interrupted call and each wait lowers. Beside it are `connect_with_timeout`, the hooks that make
--   and close descriptors, and the times of the sleeping calls.
-- * Http (yuyu/http/http.h, yuyu/http/http.cc, yuyu/http/http_parser.cc). The maps of headers,
--   parameters and cookies, the parsing of parameters, both messages and their printing, and the
--   callbacks of the parsers. The fuel of PARSE_PARAM is the length and one: every round passes a
--   byte, and `parse_loop-fuel` shows that more changes nothing.
-- * HttpSession (yuyu/http/http_session.cc, yuyu/http/http_server.cc). `recvRequest` and the loop of
--   the server, over the `read` of a stream, the generated parser and the dispatch of servlets. The
--   fuel of `recv_head` is covered by a measure of what the stream can still give.
-- * Address (yuyu/address.cc). Masks, networks, the order, and the split of a host name. The loop of
--   `CountBytes` clears a bit in each round, so that 32 rounds are enough.
-- * Log (yuyu/log.h, yuyu/log.cc). The parser of patterns, the text that a formatter makes of an
--   event, the levels, the formatters of appenders and who writes an event. The fuel of the parser
--   is the length and one. The text of a date is an argument.
-- * Config (yuyu/config.h, yuyu/config.cc). The variables with their listeners, and the table.
--
-- The parts meet through the values that they hand on: the hooks wait with the events of the
-- registry, the registry and the timers hand fibers and callbacks to the scheduler, the scheduler
-- resumes fibers, and the server reads requests from a stream and passes them to a servlet.
--
-- Not modelled are the tables of the generated parsers of yuyu/http and yuyu/uri.rl and the wrappers
-- of system calls (threads, ucontext, the options of sockets), since that code is not written by
-- hand or only calls the system; the loading of the configuration and of loggers from YAML, the
-- lookup of interfaces, the printing of sockets, servers and IPv6 addresses, the files that a
-- ByteArray reads and writes, the zlib stream, the start and the end of the scheduler's threads; several
-- threads in `run` at once, which change the counts of the scheduler outside the mutex; and the
-- interleaving of threads inside an operation that holds a mutex, which the mutex forbids. The
-- loops not named above are structural, so they need no fuel.
pub mod Address
pub mod ByteArray
pub mod Common
pub mod Config
pub mod Fd
pub mod Fiber
pub mod Hook
pub mod Http
pub mod HttpClient
pub mod HttpPool
pub mod HttpSession
pub mod IoManager
pub mod Log
pub mod Scheduler
pub mod Servlet
pub mod Socket
pub mod Stream
pub mod TcpServer
pub mod Text
pub mod Timer
pub mod Url
