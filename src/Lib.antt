-- ===== src/Lib.antt =====
-- Foxtails, a webserver in C, as functions on lists of bytes and records, and the theorems that
-- show what its parts do.
--
-- The parts and how they interact. main reads foxtails.conf (utils/config.c) and routes.conf
-- (utils/routing.c), starts the workers (utils/workers.c), and creates the table of clients
-- (utils/server.c). Each round of its loop closes the clients that are idle for too long, registers
-- accepted sockets in the table, and dispatches a copy of every client that has data as an action
-- for a worker. A worker takes the oldest action and calls worker_callback
-- (foxtails/src/worker_loop.c): it receives a message (utils/http.c), parses it, chooses a route,
-- answers from a file, by a redirect or from a backend (utils/sockets.c connects to it), sends the
-- response, and either gives the client back to epoll or frees its slot.
--
-- The files, and what they model:
--   Base       bytes and C strings (Bytes), numbers in decimal (Decimal), printed texts for the
--              round trips (Words), lists and Boolean tests. Functions of libc keep their names:
--              memchr, memmem, strtoul, strtol; tokens is what calls of strtok return.
--   Http       include/http.h and utils/http.c: Method, Mime, Message (http_t and the canned
--              responses), Header (the table of at most 32 headers), Parse (http_request_parse and
--              http_response_parse), Send (http_send_response and http_send_request with their
--              array of 4096 bytes), Receive (http_recv_message, on its own terms in Complete and
--              against a reading without buffer and pointers in Gather), Exchange (both ends).
--   Workers    utils/workers.c: the ring of actions, dispatch_command with its assertion (enqueue is what
--              follows it) and its resize, the turn of a worker, and the interleavings of both (Trace).
--              Crew adds the threads at the condition variable, with signals and the broadcast.
--   Server     utils/server.c: the table of clients, the free list of its slots, the loop that
--              fills it (server_init), server_append_client, server_remove_client.
--   Run        calls that may end the program, with what they asked of the operating system.
--   Routing    utils/routing.c: routes_parse and its helpers, on printed files (Line) and on files
--              with malformed lines (Skip), and the file that it opens (Open).
--   Sockets    utils/sockets.c: socket_create_auto (Url, and Connect with what it closes), the
--              listening sockets and socket_accept (Create), what they hold and free (Balance).
--   Serve      foxtails/src/worker_loop.c up to the response: get_path with verify_url, the
--              handlers, fetch_response; and fetch_response with the files and backends that it
--              opens (Calls), none of which it leaves open (Settling).
--   Callback   foxtails/src/worker_loop.c: worker_callback on the table of clients.
--   Host       utils/server.c and utils/workers.c: server_init_http, server_init_unix,
--              server_init_common, worker_pool_init, worker_pool_delete, server_delete.
--   Loop       foxtails/src/main.c: the rounds of the main loop, and dispatch_client.
--   Life       the main loop and the workers together, as steps on the table of clients and the
--              queue in any order: what always holds (Always), the rounds of main as such steps
--              (Rounds), that all clients in flight are served (Drain), and bounds (Bounds).
--   Main       foxtails/src/main.c: the settings and their defaults, the start, and the end.
--   Config     utils/config.c: config_get, config_get_int, and the file itself (Open).
--   Tests      tests by evaluation, and each result at a concrete input.
--
-- How the code is rendered. A record stands for a struct, a data type for an enumeration, an Option
-- for a pointer that may be null. A function that changes a struct returns it. Where the program
-- would end, or run into undefined behaviour that a property speaks of, the answer is a value of
-- its own: `none` of fetch_response and worker_callback, out_of_bounds of the senders, overrun of
-- config_get. Numbers are natural numbers; an unsigned int of the queue is taken modulo 2^32, a
-- size_t modulo 2^64 where the code subtracts pointers, and the ints read from texts keep the
-- range of strtol and their conversion. Every loop of the code is structural recursion over its
-- input; only the digits of a number n are printed with fuel, n + 1, which is more than there are
-- digits. The queue is followed up to a capacity of 2^30 slots when it grows.
--
-- Arguments of the model: the file system (realpath, open, fstat and mmap), the network (socket,
-- bind, recv, connect, accept), epoll, pthread_create, the time, the addresses that realloc gives,
-- and the success of those allocations that the code looks at. The definitions take any answers; a
-- result that needs some of them has that as a condition. So the results on the runs of Life are
-- for orderly runs (IsOrderly): each event is for a client that is alive and not in flight when it
-- is handled, and each dispatch finds a free slot in the queue or memory for a larger one. The
-- code does not ensure this by itself: a client may be swept in the round of its event, or be
-- armed again before its flag is cleared, and a dispatch without memory is dropped; the findings
-- name these cases. A step that holds a mutex from its first access to its last is one step. In
-- Life a dispatch is one step, though main gives the lock of the table back before it takes that
-- of the queue, and so is a callback, though it takes the lock of the table more than once. What a
-- request opens for its response is not among the effects of Life; it is given back within the
-- request. At the end of main no worker serves a client while server_delete runs. A client is
-- copied into an action as bytes: its layout is an argument, of at most 128 bytes, as
-- dispatch_command asserts, and the results of Life assume that what was written can be read,
-- ip_addr as the 15 bytes its array holds. A negative max-connections is a size for which there is
-- no memory.
--
-- Not modelled: the vendored headers include/cpool.h and include/clog.h (a memory pool, whose
-- copies are values here, and a logger), signals (the loop ends after a given list of rounds), what
-- send takes of the bytes it is given, numdigits, which serves a message, and routes_delete, which
-- only frees memory.
pub mod Base
pub mod Http
pub mod Workers
pub mod Server
pub mod Run
pub mod Routing
pub mod Sockets
pub mod Serve
pub mod Callback
pub mod Host
pub mod Loop
pub mod Life
pub mod Main
pub mod Config
pub mod Tests
