-- ===== src/Lib.antt =====
-- The prefix match server and its indexer (server/, indexer/).
--
-- The indexer reads a list of names with weights, spells each name in letters by the Chinese
-- map, and writes a double-array trie from spellings to names. The server loads the trie, reads
-- requests of a length-prefixed binary protocol on libevent threads that a dispatcher hands
-- connections to, spells the query the same way, collects the names below the spellings,
-- filters them by the Chinese characters of the query and returns the first ones by weight. An
-- HTTP monitor answers the same queries and reloads the index.
--
-- Files:
-- - Util: the string helpers of server/util.cpp (indexer/util.cpp is the same): trim, trimleft,
-- trimright, sepstr, getUTF8Len, delstr, parse_string_fast and tokenize_command (Tokens).
-- Util/Utf8 has the loop by getUTF8Len that Query and both convert_to_letters share.
-- - Letters: read_chinese_map (Table), get_all_results (Product) and convert_to_letters of
-- server/prefixmatch.cpp and indexer/indexer.cpp (Convert).
-- - Search: the set of nodes and filter_result (Set, Filter), Query and Get (Query) of
-- server/prefixmatch.cpp.
-- - Index: the building of the index in create_index of indexer/indexer.cpp (Build) and what
-- operator<< and operator>> of string_array write and read (Tail); mmap_file, init_index,
-- deinit_index and Reload_index of server/prefixmatch.cpp beside the readers of Query (Reload),
-- as steps of threads.
-- - Wire: the response that complete_nread and add_bin_header of server/server.cpp write, and
-- the loop of server/client.c that reads it.
-- - Conn: a connection. State has the struct of server/conn.h and what a connection asks of the
-- system; Output has add_msghdr, ensure_iov_space, add_iov, out_string, add_bin_header,
-- write_bin_error, write_bin_response and transmit of server/server.cpp; Read has
-- try_read_network of server/network.cpp; Command has conn_shrink of server/conn.cpp and
-- reset_cmd_handler, complete_nread, bin_read_key and try_read_command of server/server.cpp;
-- Machine has the turns of drive_machine; Pool has the free connections of server/conn.cpp;
-- Life has conn_new and conn_close. Answer puts these together: a request from its header
-- (Whole) and its body (Exchange) to the last byte of its answer (Delivers, Comes).
-- - Queue: the connection queue of server/thread.cpp on a heap of items, and its free list;
-- Dispatch has dispatch_conn_new and thread_libevent_process.
-- - Log: _log, _log_internal, my_write and async_write of server/log.cpp, and the threads that
-- log (Buffers); the levels of the log (Levels).
-- - Net: the listening sockets of server/network.cpp (Sockets), its search for the size of a
-- send buffer (Sndbuf), and the state conn_listening of drive_machine with accept_new_conns of
-- server/thread.cpp and do_accept_new_conns (Accept).
-- - Http: process_http_cb of server/server.cpp.
-- - Sig: the table of signals, its handlers and the thread of server/sig.cpp.
-- - Config: settings_init, parse_config and check_settings of server/config.cpp.
-- - Prelude: lists, tests and permutations that the parts share. Tests: runs and examples.
--
-- How the code is modelled. A byte is a number below 256, a string is the list of its bytes,
-- and a std::vector a list. The hash map of readings is an association list in which a later
-- entry for a key replaces the earlier one. A connection is a record: its buffers are the bytes
-- that they hold, and its pointers into the read buffer are offsets. The chunks of the messages
-- hold the bytes that they point to, since no buffer that a message points to is written before
-- the message is sent. read, sendmsg, event_add, event_del and the allocator are a list of
-- answers that are taken in order, so every order of full, short, blocking and failing calls is
-- an input of the theorems. Get is a parameter of the state machine, since a turn does not
-- depend on what the search does. Threads are step relations: for the index a step is one
-- statement of Reload_index or the taking of a lock, and the lock is a premise of the step; for
-- the log a step is a section under a buffer's lock. cq_push, cq_pop and cqi_free hold their
-- lock wherever they touch shared memory, so each is one step there; cqi_new takes its lock
-- twice, with malloc between, so what the free list is at the second time is an argument of its
-- own. A run-time failure of the model is a value: overrun for a turn that makes a size or a
-- count negative or writes behind the buffer of an answer, stuck for a state without a client,
-- none for an access through NULL or a division by zero.
--
-- Loops and fuel. A loop over a list is recursion on it. A loop by getUTF8Len or find has fuel,
-- since getUTF8Len may return 0: one round more than the text has bytes is enough for a text in
-- UTF-8, since each round passes over a character. try_read_network has six rounds and four
-- growths of its buffer, as the source counts them: a round that goes on has filled the buffer,
-- so the next one grows it or ends. add_iov has three rounds, and one more for each answer of
-- the allocator that is still to come: the first takes what fits into the message, the second
-- starts a message, and the third takes the rest of a buffer of which the first took no byte.
-- The loop that doubles the size of a buffer has as many rounds as bytes are asked for.
-- parse_config and create_index have a round for each byte of a line or a file, since a round
-- passes one at least. maximize_sndbuf has 29 rounds, since each halves what is left of at most
-- 2 ^ 28 sizes. drive_machine has fuel, because a client that always has bytes ready keeps it
-- going.
--
-- Numbers. A size_t is a number, and wraps where the source lets it: copies_needed in
-- Letters/Product, and the length in front of a result. The ints of a connection are numbers
-- below 2 ^ 31, and where the source makes one that is not is written out: a body of 2 ^ 31
-- bytes or more makes rlbytes negative, and one of more than 2 ^ 30 - 8 bytes can make rsize
-- negative or 0, so bin_read_key gives no connection then; try_read_network asks realloc for a
-- negative size, which fails; rlen + 1 in complete_nread is cut to 32 bits, of which calloc
-- refuses a negative size, while one that has wrapped round to a size that is too small is a
-- write behind the buffer. What the source does with a connection of such a size is not
-- modelled. The client copies a result into 8096 bytes. fsize of an index is 32 bits: munmap
-- refuses a negative one. An int setting is its 32 bits. The host is little-endian.
--
-- Parameters. atof, atoi and strcasestr are functions on strings, what evhttp returns for a
-- request is a record, and the tail arrays that the trie gives operator<< are a record of
-- operations with their laws. The trie of dastrie.h is a copy of a library: a call of
-- getChildren is a function from a key to nodes. std::sort and the comparison of the float
-- weights are functions too, with the hypothesis that the sort permutes its range and leaves it
-- in the order of its comparison.
--
-- Not modelled: daemonising, pid files, command-line options and process limits, and the set-up
-- of the threads, of the signal masks, of libevent and of evhttp, which are system calls in
-- sequence; the pipe that wakes a thread; safe_strtoul and its like and mkdir_recursive, which
-- wrap the C library; the opening of the log file; options of a socket whose result is only
-- logged; the trie.
pub mod Prelude
pub mod Util
pub mod Letters
pub mod Search
pub mod Wire
pub mod Conn
pub mod Index
pub mod Log
pub mod Config
pub mod Queue
pub mod Net
pub mod Http
pub mod Sig
mod Tests
