-- ===== src/Lib.antt =====
-- hiredis-vip: a client library for Redis and Redis Cluster.
--
-- A program formats a command in the Redis protocol (hiredis.c, on the strings of sds.c), parses it
-- again to find its keys (command.c, which keeps them in an array of hiarray.c), computes the
-- slot of each key (crc16.c and `keyHashSlot` of hircluster.c) and sends it to the node that
-- serves the slot, by a table that an update of the route fills; a command with keys of several slots
-- is split, and the replies to its parts are put together (hircluster.c). This development models
-- that way of a command.
--
-- The files, each with its child modules for the proofs:
--   Base      helpers: lists measured by native numbers, Boolean tests, bits, tables.
--   Slot      crc16.c, and `keyHashSlot` of hircluster.c. A `char` is its byte.
--   Array     hiarray.c: `struct hiarray` is the record HiArray, its storage a list of slots, a
--             pointer into it a number of bytes from its start. `hiarray_push` returns a pointer, and
--             the caller's write through it is `store`; push_value is the two together.
--   Decimal   `sdsull2str` and `sdsll2str` of sds.c, `countDigits` and `bulklen` of hiredis.c.
--   Sds       the strings of sds.c: the bytes in use and the number of free ones.
--   Format    `redisFormatSdsCommandArgv` of hiredis.c.
--   Command   command.c: Types has `struct cmd` and the states, Kinds the functions
--             `redis_argz` to `redis_argeval`, Keywords the words of the commands, Fsa, Items and
--             Choices the cases of the switch of `redis_parse_cmd`, and Parse its loop. Forward and
--             Halts are about its end. Run follows it over the text of a command, item by item, and
--             Roundtrip has the whole: its Shapes say which items a command of each kind takes.
--   Util      the numbers of hiutil.c.
--   Cluster   hircluster.c. Context is `redisClusterContext` and `node_get_by_table`; a pointer to a
--             node is a value of a type A. Search is `node_get_by_slot`. Route is the update of the route
--             from the nodes that a server reports: `update_route` is `cluster_update_route_by_addr` from
--             the parsed nodes on, and its Holders say who holds a slot. Reply has the replies and
--             `cluster_reply_error_type`. Net is the interface to the connections (hiredis.c), to the
--             dictionary and to the splitting of strings, with what finds a node and asks for the route
--             over it. Execute is `redis_cluster_command_execute`: `ask_retry` and `retry` are its two
--             labels. Fragment is `command_pre_fragment`, Gather `command_post_fragment`, and
--             Gather/Compose and Gather/Counts have the two together. Plan is `command_format_by_slot`,
--             from the text of a command to the slot or the parts. Client is
--             `redisClusterFormattedCommand`, which uses
--             Plan, Execute and Gather in turn. Pipeline has `cc->requests` with
--             `redisClusterAppendFormattedCommand`; its Replies has `redisClusterGetReply` and its Reset
--             `redisClusterReset`, its Fifo says what it is for connections to be queues. Topology is
--             `parse_cluster_slots`, which makes the nodes that Route reads from a server's report; there
--             a node is named by its address, and Install has the parse and the update together. Calls has
--             the calls that stand on these, and `slot_get_by_command`.
--
-- Memory is the C library's: every operation that allocates takes a function `grant`, which says
-- whether a request of so many bytes is served. A theorem holds for every such function, unless it
-- says that memory is served. In Cluster memory is taken to be there, but for the node that an ASK makes.
-- `uint32_t` and `size_t` wrap where the code lets them (`u32`, `size_t`), and so do the `int` fields
-- of a string (`int_field`) and the count of a DEL (`as_long_long`). Memory that is released is seen where
-- the code uses it again: `releases_twice` for the iterators of an update of the route, `freed` and
-- `freed_twice` for the replies of the pipeline.
--
-- Bounds and fuel: `write_digits` has 20 rounds, since an `unsigned long long` has at most 20 digits,
-- `reverse_loop` has one for each byte, `count_digits_loop` has 6, where a `uint64_t` needs at most 5, and
-- `parse_loop` has one for each byte of the command and one to leave. `search_loop` has two more than there
-- are regions, `ask_retry` one more than `max_redirect_count`, since each redirection is counted, and
-- `itoa_loop` and `uint_len_loop` ten, the digits of 32 bits, and `itoa_reverse` one more than bytes. `drain` has one more than there are requests,
-- since each round takes one. `retry_count` is taken not to reach 2^31.
--
-- Not modelled: the release of memory elsewhere, the sockets, the reader of replies, the contexts of
-- hiredis.c, lists and dictionaries, which are copies of other projects' libraries, and the
-- asynchronous clients. Of hircluster.c, the parsing of `CLUSTER NODES`, the exchange of
-- connections between old and new nodes, and the options are not modelled. The request for the
-- route and the exchange are operations of the interface Net, and what a report is parsed to is a
-- list of nodes. The reads and writes of a connection in the pipeline are the interface Lines, and
-- its connections block. The nodes of a report are kept in the order of their entries, not in that
-- of the hash table. The assertions that debug builds make are left out. The text of an error of
-- the parser is kept as its three numbers, and its buffer is taken to be allocated.

pub mod Array
pub mod Base
pub mod Cluster
pub mod Command
pub mod Decimal
pub mod Format
pub mod Sds
pub mod Slot
pub mod Util
