-- ===== src/Lib.antt =====
-- ckv is a key-value store in C: a server that keeps its entries in a hash table which grows while
-- it is used, and answers requests of a Redis-like protocol.
--
-- The files:
--   Base and Base/*: the library names, tests, list lemmas and 32-bit helpers that all parts share.
--   Run: how a piece of C code ends (a value, a memory fault, or a loop out of fuel).
--   HashFunc: src/kvs_hash.c, `default_hash` and the length convention of keys.
--   Hash: src/kvs_hash.c and src/kvs_hash.h, the table's data and its migration
--     (`kvs_hash_bucket_new`, `kvs_hash_next_power`, `kvs_hash_new`, `kvs_hash_need_expand`,
--     `kvs_hash_rehash`, and the walk along a chain).
--   Hash/Lookup: `kvs_hash_find_core`, `kvs_hash_resize`, `kvs_hash_find`, `kvs_hash_add`,
--     `kvs_hash_del` and `kvs_hash_free`.
--   Hash/Chain, Hash/Edit: chains of nodes in the heap. Hash/Table: what a sound table is, and the
--     map from keys to values that it stands for. Hash/Migrate, Hash/Rehash, Hash/Progress: the
--     migration. Hash/Owned, Hash/Locate: the search. Hash/Assign, Hash/Insert, Hash/Unlink,
--     Hash/Remove: changes. Hash/Free: the end of a table. Hash/Grow: new tables. Hash/Map: the
--     operations on the map.
--   Hash/Tests: runs on small tables.
--   Str: src/kvs_str.c and src/kvs_str.h, the buffers (`kvs_buf_new`, `kvs_buf_setrange`,
--     `kvs_buf_append`, `kvs_buf_truncate`). Str/Text: the text that a buffer holds. Str/Grow: its
--     memory. Str/Write: what the operations do to the text. Str/Range: `kvs_buf_getrange`.
--     Str/Print, Str/Printed: `kvs_buf_append_sprintf` and what it does. Str/Split, Str/Tokens:
--     `kvs_strs_split` and how far it gets. Str/Tests: runs and examples.
--   Command: src/kvs_command.c, the handlers of `set` and `get`, with the objects of
--     src/kvs_obj.h. Command/Map: what they do on the map. Command/Handlers: `kvs_cmd_del`,
--     `kvs_cmd_append` and their handlers. Command/Edit: `append` on the map. Command/Process:
--     `kvs_command_init` and `kvs_command_process`. Command/Reply: what they do.
--     Command/Session: two commands one after the other.
--     Command/Tests: examples.
--   Ev: src/kvs_ev.c and src/kvs_ev.h, the event loop (`kvs_ev_api_new`, `kvs_ev_add`,
--     `kvs_ev_del`, `kvs_ev_resize`, `kvs_ev_cycle`). Ev/Select, Ev/Epoll, Ev/Kqueue: the
--     interfaces of src/kvs_ev_select.c, src/kvs_ev_epoll.c and src/kvs_ev_kqueue.c.
--     Ev/Watch: what `select` watches. Ev/Exact: the whole loop after a registration or a removal.
--     Ev/Scan, Ev/Reach: the ready descriptors. Ev/Start: a new loop. Ev/Round: a round of the
--     loop. Ev/Handlers: handlers that change registrations. Ev/Interest: what `epoll` watches.
--     Ev/Tests: examples.
--   Net: src/kvs_net.c and src/kvs_common.h, a client and `kvs_net_parse`. Net/Cells, Net/Wire:
--     the bytes of a request. Net/Digits: numbers in base 10. Net/Input: `kvs_net_read`.
--     Net/Output: `kvs_net_write`. Net/Sending: what it sends. Net/Request: a request from its
--     bytes to the reply. Net/Close: the end of a client. Net/Tests: examples.
--   MinHeap: src/kvs_minheap4.c and src/kvs_minheap4.h, the heap with four children to an entry.
--     MinHeap/Written, MinHeap/Bounds, MinHeap/Shrink: its memory. MinHeap/Order, MinHeap/Total: the
--     order and the sum of the entries. MinHeap/Rise, MinHeap/Insert: `kvs_minheap_add`.
--     MinHeap/Least, MinHeap/Sink, MinHeap/Remove, MinHeap/Take: `kvs_minheap_del`. MinHeap/Tests:
--     examples.
--   LinkedList: src/kvs_list.c and src/kvs_list.h, rings of nodes. LinkedList/Store: what the writes
--     do to the links. LinkedList/Ring: the sequence of a ring. LinkedList/Change,
--     LinkedList/Relink: a ring that changes at one place. LinkedList/Steps, LinkedList/Visit: the
--     operations and the loop. LinkedList/Tests: examples.
--   Sock: src/kvs_sock.c, the socket for a list of addresses. Sock/First: which one it is.
--     Sock/Tests: examples.
--   Server: src/kvs_server.c, `accept_fd`, `kvs_server_init` and the start of `main`.
--     Server/Answers: the answers of `accept`. Server/Accept, Server/Tries: what `accept_fd` leaves.
--     Server/Start: the state in which the loop starts. Server/Tests: examples.
--   Log: src/kvs_log.c and src/kvs_log.h. Log/Written: what `kvs_log` writes. Log/Tests: examples.
--   Cli: src/kvs_cli.c, `marshal`. Cli/Sent: what it sends. Cli/Connect: `kvs_cli_new`. Cli/Tests:
--     examples.
--
-- How the parts meet: `start` makes the two tables and the loop and watches the listening
-- socket, `accept_fd` makes a client of each connection and watches it, `net_read` collects
-- bytes in the buffer of a client, `net_parse` cuts them into arguments, `command_process` looks
-- the first one up in the table of commands and runs its handler on the table of entries, and
-- `ev_add` asks the event loop for the moment to write, when `net_write` sends the output and
-- `ev_del` ends the wait.
--
-- State and correspondence: a `kvs_hash_t` is a record of its two tables and the migration's
-- index, with the heap of its nodes, in which an address is never given out twice, so that every
-- use of freed memory is a fault. Each C function is one definition of the same name without its
-- prefix, and returns the changed structure.
--
-- Fuel: a walk along `next` pointers takes fuel, since a damaged chain may be cyclic. The
-- theorems ask for more fuel than the table has entries, and prove that the run then returns.
-- The loops of src/kvs_net.c take the answers of `read` and `write` one by one and are out of
-- fuel when none is left; those of src/kvs_minheap4.c take as many rounds as there are entries.
-- The loop over a list of src/kvs_list.c takes more fuel than it has nodes, `kvs_log` two
-- rounds, and `accept_fd` the three that the source counts.
--
-- Bounds: `klen` is kept as a `size_t` and its low half as the 32-bit pattern of an `int`; hashes
-- wrap at 2 ^ 32. The counters `use` and `size` are taken not to reach the ends of an `int`.
--
-- A buffer is what its pointer points at, cells that are `none` until they are written, with the
-- fields of the structure. Its lengths and offsets are taken not to overflow an `int`.
--
-- Parameters: what the system calls `accept`, `fcntl`, `socket`, `bind`, `read`, `write`, `select`,
-- `epoll_ctl`, `epoll_wait` and `kevent` answer is an argument, and so are what `%d` prints (digits)
-- and what `strtoul` reads (a printed number below 2 ^ 31, where the digits end), the text that
-- `vsnprintf` prints, the time, what unwritten memory holds, and whether there is memory.
--
-- Not modelled: the prompt of src/kvs_cli.c, what the handlers log, the end of `main`, the lock of the
-- log, the release of objects, and that of an empty first table which the migration gives up (the call
-- of `kvs_hash_bucket_free` in `kvs_hash_rehash`).
pub mod Base
pub mod Cli
pub mod Command
pub mod Ev
pub mod Hash
pub mod HashFunc
pub mod LinkedList
pub mod Log
pub mod MinHeap
pub mod Net
pub mod Run
pub mod Server
pub mod Sock
pub mod Str
