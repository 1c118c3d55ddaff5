-- ===== src/Lib.antt =====
-- A model of cserv, an HTTP server on coroutines, and theorems about it.
--
-- The program. A master process starts workers; each worker runs coroutines over an event loop, and
-- each accepted connection is served by one coroutine, which calls `http_request_handler`
-- (src/http/request.c). That takes a request from the object pool (src/util/memcache.c), receives
-- into the buffer behind it, parses the request line and the headers (src/http/parse.c), looks the
-- headers up in a hash table (src/util/hashtable.c), receives the body, and answers
-- (src/http/response.c). The log is written through a circular buffer (src/util/cirbuf.h).
--
-- What is modelled, by file:
-- - Http/Types: `str_t`, `struct buffer` and `struct http_request` (src/util/str.h,
--   src/util/buffer.h, src/http/request.h). A pointer into the buffer is its offset from `start`, or
--   none for NULL; a buffer is the list of the bytes from `start` to `last`, with its size and `pos`.
-- - Http/Method: `get_request_method` (src/http/parse.c).
-- - Http/Line: `http_parse_request_line` (src/http/parse.c). State has the enumeration; Target, Path
--   and Version have one function for each case of the switch; Loop has the switch, the loop and the
--   code behind it. A round returns the next state and request, or says that the code goes to `done`
--   or returns an error. Where the C code steps back by one byte and changes the state, the model
--   calls the other case on the same byte.
-- - Http/Header: `http_parse_request_header` (src/http/parse.c), in the same way.
-- - Http/Request: src/http/request.c. Recv has `recv_http_request`, Process the three receiving
--   loops, Handlers the table of header handlers, Host and Atoi the two handlers that there are, and
--   Serve `http_request_handler` and `http_request_init`.
-- - Http/Response: src/http/response.c, with the tables written out. What would be given to `send`
--   is the result.
-- - Util/HashTable: src/util/hashtable.c, each bucket the list of its elements in order.
-- - Util/Memcache: src/util/memcache.c, with a record of what goes to `free`.
-- - Util/Cirbuf: src/util/cirbuf.h.
-- - Util/Rbtree: src/util/rbtree.c and src/util/rbtree.h. A node and its parents are a subtree and
--   the path from it to the root. Insert and Erase have the functions; Order, Colors and Valid what
--   they do to the sequence of the tree and to its colors.
-- - Coro: src/coro/sched.c. State has the records, Timers the tree of timer nodes, Sched the other
--   functions; a coroutine is known by its id, and the intrusive lists are lists of ids. Reachable
--   has the steps of the scheduler: what `run_active_coroutine`, the policy and the coroutines do
--   one after the other.
-- - Util/Shm: src/util/spinlock.h (Spinlock), with the steps of threads that use it, and the allocator
--   of src/util/shm.c (Alloc).
-- - Util/Links: src/util/list.h, on a heap of `next` and `prev` fields. The other components use
--   lists of ids or of elements in place of the intrusive lists.
-- - Io: src/event.c (Event) and src/syscall_hook.c (Hook). The loops of the hooks recurse on what the
--   system answers round after round; `epoll_ctl` is recorded. What the other coroutines do to the
--   table of events while a hook sleeps is an argument.
-- - Proc: src/process.c and src/signal.c. Master has the table of workers and the rounds of the
--   master, Worker the accepting loop and the connections of a worker; System and Worker have the
--   steps in which signals, children and connections come and go. Signal handlers run between the
--   rounds.
-- - Conf: src/util/conf.c (Parse, Load), src/env.c and `worker_process_init` of src/http/http.c
--   (Env). The lines that `fgets` answers, `isspace`, `isprint` and `atoi` are arguments.
-- - Log: src/logger.c, with the queues of the processes over Util/Cirbuf. The text of a message is an
--   argument.
-- - Prelude: tests on numbers, lists over the native numbers, and the library's names.
-- - Tests: runs on concrete inputs.
--
-- What stands for the system. `recv` is driven by a list of events, what the client does in order;
-- when the list ends the client is silent and the call times out. `malloc` is a parameter: its
-- answers are arguments, as are the time and the answer of `coro_stack_alloc`. Numbers of 16 and
-- 32 bits wrap around (versions, tickets, the narrowed difference of two times); `size_t` wraps
-- where the code lets it (the dots of a host, the sizes of shared memory). Offsets and lengths of
-- strings do not wrap: the theorems on bounds show that no subtraction on them goes below zero. A
-- write outside `lowcase_header` is lost in the model; where the index is in range is a theorem of
-- its own.
--
-- Fuel. The parsers recurse on the bytes, the receiving loops on fuel. Each round of the loops for
-- the line and for the body receives a byte at least, so more fuel than free bytes in the buffer is
-- enough. Each round of the loop for the headers moves `pos` or `last` on, so more than the bytes
-- behind both is enough. `http_request_handler` gives twice the size of the buffer and one. The loops
-- of the scheduler over the timers take one round for each timer node, and for each coroutine of one.
--
-- Not modelled: the switch of stacks (machine code), the creation of the listening socket, the
-- opening of files, and what only reads facts of the system or the command line. Logging inside the
-- modelled functions is left out. A failed assertion ends the program, and is a result of its own.
pub mod Prelude
pub mod Http
pub mod Util
pub mod Coro
pub mod Io
pub mod Proc
pub mod Conf
pub mod Log
pub mod Tests
