-- ===== src/Lib.antt =====
-- A verification of the TCP server in tst/ and of the program amiproc/ that is built on it.
--
-- The program. `tstpool` (tst/tst.h, tst/tst.cpp) is a thread pool around epoll: its main thread
-- takes events, accepts and closes connections, and gives each event of a connection to a worker
-- that waits; a worker receives or sends what the connection has asked for, calls the user's
-- function once that is complete, and arms the descriptor again (every event is EPOLLONESHOT) or
-- closes it. amiproc/ is a user of the pool: an HTTP front (http.h, http.cpp, http_routes.cpp) whose
-- connections may become websockets (websocket.h, websocket.cpp, ws_routes.cpp), and a client of the
-- Asterisk Manager Interface (amiproc.h, amiproc.cpp, amiaction.cpp). echoserver/ is another user.
--
-- The files.
--   Common, Common/*         names passed on by the libraries, lists and dictionaries on native
--                            numbers, and facts that a table decides
--   Pool/Types, Pool/State   `TST_DATA`, `TST_SOCKET`, `TST_THREAD_INFO` and `tstpool` as records; the
--                            socket objects lie on a heap, the map of connections holds addresses
--   Pool/Connections         `addsocket`, `closesocket`, `need_send`
--   Pool/Transfer            the automatic receive and send of `tst_work`
--   Pool/Work                one round of `tst_work`, from its waking up on
--   Pool/Main                what `tst_main` does with one event
--   Pool/Setup               `tcp_create` and `tcp_connect`, with the calls that they make
--   Pool/Lifecycle           the constructor, `create`, the start of `tst_main`, and `destroy`
--   Pool/Shutdown            what `tst_main` does behind its loop
--   Pool/Turns               whose turn it is for a descriptor: the abstract view of EPOLLONESHOT
--   Pool/System              the main thread and the workers as steps on one pool and one epoll
--   Http/Types               `REQUEST_INFO` and `WS_INFO`, what a connection keeps in `user_data`
--   Http/Base64, UrlDecode   `base64_encode`, `base64_decode`, `urlDecodeRewite`
--   Http/Query               `CQueryString`
--   Http/Request             the parser of a request header in `http`, and `get_httpheader`
--   Http/Server, Handler     `http`: its reading loop and tests, and the whole function
--   Http/Response            `RESPONSE_INFO` and `response_http`
--   Http/Routes              the routes of http_routes.cpp
--   Websocket/Frames         the functions that write a frame, and the masking
--   Websocket/Receive        the parts of `websocket` that read a frame
--   Websocket/Handler        `websocket`, from the upgrade to the call of the registered handler
--   Websocket/Alive          `websocket_alive`
--   Ami/Events               `parse_amievent`, `get_amivalue`
--   Ami/Message, Ami/Event   `ami_event`: its reading loop, and what it does with a message
--   Ami/Handler              `ami_event` as the pool calls it, for every event
--   Ami/Login                `amiLogin`
--   Ami/Actions              `ami_sync`, `ami_async`, `process_events`, `my_disconnected`
--   Ami/ProcessEvents        the handlers of processevents.cpp, `logging_events`, and the run of an event
--   Echo                     `echo` and `first` of echoserver/echoserver.cpp
--   Echo/Farewell            what its `main` leaves in each connection's send buffer at the end
--   Program                  `main` of amiproc.cpp: its tables, put together with the web front, and the
--                            loop that queues the requests for a login
--   Async                    what AsyncThreadPool.h implements itself, and `atpfunc`
--   Tests                    the theorems at concrete inputs
-- A module `Laws`, `Sound`, `RoundTrip` or the like below one of these holds what is proved of it.
--
-- The model. Numbers are native natural numbers, and a uint32_t or uint64_t keeps its wrap-around
-- (`% 2 ^ 32`, `% 2 ^ 64`); a text is a list of bytes, and a C string in memory is what stands before
-- the first 0. State is passed explicitly. What the kernel answers (`ioctl`, `read`, `write`,
-- `accept`, `epoll_ctl`, `realloc`) and what the user's functions do are arguments; `none` stands for
-- an answer of -1. A read through a null pointer is the result `none` of a step.
--
-- What the language leaves open. Where the code writes behind an array or reads through a null
-- pointer, the model says so and goes no further: `parse_amievent` gives `none` for more records than
-- `key` and `value` have places (100), and `AmiManage` has a field `faulted` for what follows in
-- `ami_event`, also for a message without a colon; the parser of a request header gives `lost` for
-- more lines than `http_headers` has places (30) and for a line or a URI that it runs past; and a
-- header without a value, which `http` reads through all the same, leads, as `lost` does, to the
-- argument `undefined`, which may be any outcome. The parser of a request takes the byte behind the
-- text's end as an argument, as the search for the `?` of a URI may come to it.
--
-- The threads. A step of Pool/System is what a thread does between the lock and the unlock of a
-- mutex, with the unlocked part before it: the handling of one event, the run of one job, the test
-- and the start and the end of an idle round, each on its own; `epoll_wait` collects a batch of
-- reports when the last one is handled. `destroy`, on another thread, may clear the flag of the main
-- loop at any time; a worker, which tests its own flag before it waits, may go on after that is
-- cleared. The steps end where the main thread has told the workers to exit: its `pthread_cancel` and
-- `free` are functions of Pool/Shutdown, but no steps, and nothing is said of a worker that still runs
-- then. The main thread looks up `m_connect` without the mutex under which a worker erases: that the
-- handling of an event is one step leaves this out. Epoll is an interface with what EPOLLONESHOT and `close`
-- promise. What `accept` gives is a descriptor that nothing goes by. Handlers act on the socket that
-- they are called with: a handler that calls `need_send` or `closesocket` for another one is outside.
--
-- Fuel. `parse_loop` and `header_lines` take fuel for each byte of their text, and each round takes
-- a byte or more. The padding of base64 takes three rounds at most, a 32-bit number ten digits.
-- `read_message` and `read_request` count down the bytes that the source's own `remain` allows.
-- `bind_loop` has the source's ten tries. `wait_loop` takes fuel for each look, and the theorem on it
-- says how many are enough. `login_loop` runs over the list of what its rounds read.
--
-- Not modelled: `m_fconnected` seen by another thread while it runs, and the mutex of the map, whose
-- sections are single steps; sha1, which is third-party code and an argument, and the functions that
-- AsyncThreadPool.h declares, whose code is not in the repository; clocks, logging and signals.
pub mod Common
pub mod Pool
pub mod Http
pub mod Websocket
pub mod Ami
pub mod Echo
pub mod Program
pub mod Async
pub mod Tests
