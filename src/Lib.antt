-- ===== src/Lib.antt =====
-- Verification of Tiny-Https-Server: an HTTPS server in C with sessions, and the portfolio application
-- that it loads.
--
-- A listener task (server/http.c) polls the connections and hands the data of a client to a task
-- of its own; the task parses the request, resolves the path in the tree of registered routes, and
-- calls the handler of the method or refuses. The handlers (app/app.c) use the sessions of
-- http_libs/http_session.c and tables in files (app/backend/csv.c). Data that arrives while a task
-- runs waits in a queue of libs/queue.c. Tasks (libs/async.c) run on the threads of a pool
-- (libs/threadpool.c), which takes them from such a queue.
--
--   Queue        libs/queue.c: the ring of pointers (Queue), what it holds (Queue/Contents), any
--                schedule of threads at it (Queue/Threads, with Order and Shutdown).
--                Queue/Fifo is what the thread pool relies on, and the ring as one that has it.
--   ThreadPool   libs/threadpool.c: creation, threadPool_pushWork and the loop of a thread. Slots
--                is the invariant of the pool, Runs that each step keeps it, Order and Drain are the
--                pool from its creation on.
--   Async        libs/async.c: the life of a task and its yields, with the pool of stacks in Stacks.
--                async_run is two steps, as the owner may act before it reads the task again.
--   Connections  server/http.c: http_server_start, http_server_worker, http_server_stop, the opening
--                and the closing of connections. Table is the invariant, Opened the rounds.
--   Requests     server/http.c: http_parse_header (Parse) and http_get_cookie (Cookies).
--   Reception    server/http.c: http_get_request_header and http_get_request_body on buffers with all
--                their bytes, those that malloc and realloc left in them included.
--   Routes       server/http.c: http_resolve_path (Resolve) and http_register_method (Register). Flat
--                describes trees of routes of one segment as tables, Nested registers two segments.
--   Dispatch     server/http.c: a round of http_process_request from the parsing to the response.
--   Response     server/http.c: the functions that fill a response, and the head of the reply.
--   Session      http_libs/http_session.c: users (Users), and in Logins the login, the logout, the
--                cookie and the session task. Slots is the invariant of the session table, Task a
--                second of the session task. Store is the users in files, from the start of the engine
--                to its stop, and Restart a stop and a start in a new process.
--   Locks        libs/lock.h: the deadline of lock_timedwait.
--   App          app/app.c: the handlers of pages, resources, registration, login and logout. Sessions
--                is which requests have a session. In Accounts are the handlers of a coin's
--                transactions. Start is app_start and app_stop, and Start/Table the routes that it
--                registers, as a table. Portfolios is app/backend/portfolio.c on directories, and
--                crypto_get_coins.
--   Coins        app/backend/coin.c and app/backend/portfolio.c: the transactions of a coin. Owned is
--                what a new one writes, Counted what the totals do with it once the file is loaded.
--   Csv          app/backend/csv.c: tables as lines that a file mirrors, the fields of a line, and the
--                loading of a file.
--   Main         server/server.c: the options (Options) and the calls of main.
--   Build        cb.h: the arenas (Pieces) and the stack of contexts (Contexts, Growth), the strings
--                that grow in them (Strings, Text, Paths), and fetch_local_files (Fetch).
--   Prelude      lists and tests over native numbers, C strings, and how a call ends (Prelude/Run).
--
-- Memory: a pointer into a string is the suffix from it on, and strlen is a length. A pointer to a
-- node or a slot is its index. A write or a read outside of an object is `fault`, a wait for a lock
-- that nobody releases, or for data that never comes, is `blocked`. A size_t wraps where the code
-- counts down from 0 or rounds up; other counters are numbers without bound. The functions under a
-- lock are single steps; Queue/Threads interleaves them.
--
-- Fuel: a loop over a text gets one unit more than the text has bytes, and each round consumes a byte
-- at least; a loop over slots gets the number of slots. 20 digits of a size and 11 of an int are all
-- that the types have.
--
-- Parameters: the results of system calls and of the TLS library, the files, random ids, what
-- realloc leaves in new memory, atoi, and the arithmetic, reading and printing of floats.
--
-- A lock or a queue that makes a call wait: the users' lock, which a refused registration leaves held,
-- and a full queue of work block the session functions. A connection's queue is a list without bound.
--
-- Not modelled: the other functions of libs/lock.h (wrappers of pthreads), threadPool_destroy and the
-- start and the stop of the engine of tasks, which cancel threads and map memory, and of the build
-- program the commands that it starts and cb.c, which names them.
pub mod App
pub mod Async
pub mod Build
pub mod Coins
pub mod Connections
pub mod Csv
pub mod Dispatch
pub mod Locks
pub mod Main
pub mod Prelude
pub mod Queue
pub mod Reception
pub mod Requests
pub mod Response
pub mod Routes
pub mod Session
pub mod ThreadPool
