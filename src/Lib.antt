-- ===== src/Lib.antt =====
-- The proxy of this repository stands between clients and a pool of Redis or Memcache servers.
-- This library models its core: how a key finds its server, how bytes are kept in messages, and
-- how requests and responses travel.
--
-- Pool (src/nc_server.c, src/hashkit/nc_ketama.c, nc_modula.c and nc_random.c). Pool/State has
-- the structs of src/nc_server.h. Pool/Dispatch has the three dispatch functions, and Pool/Update
-- the update functions: `survey` and `survey_unweighted` are their first loop, `build` their
-- second one, `install` what they share around it, and `*_rebuild` a whole update after the clock
-- was read. Pool/Route has `server_pool_idx` with the hash tag (`tagged_key`), `server_pool_run`,
-- `server_pool_update` and `server_failure`. Pool/Dispatch/Search and Consistent are about the
-- binary search; Pool/Update/Survey, Live, Fresh, Kept, Shares and Ketama about the rebuilt
-- continuum; Pool/Route/Tag, Landing, Eject and Readmit about routing.
--
-- Buffer (src/nc_mbuf.c, and src/nc_message.c where it moves bytes). A buffer is its bytes up to
-- `last` and the position `pos`; a message is the list of its buffers, `mlen` and the parser's
-- `pos`. Buffer/Message has the operations that build and cut messages, Buffer/Send the loops of
-- `msg_send_chain` before the system call (`gather_all`) and after it (`settle`). Buffer/Content
-- says what a message holds.
--
-- Pipe (src/nc_request.c, src/nc_response.c, `server_close` of src/nc_server.c, the message pool
-- of src/nc_message.c and `client_active` of src/nc_client.c). Pipe/State has the fields of
-- `struct msg` and `struct conn` that these files use, in one store in which pointers are
-- numbers, so that aliases are modelled. Pipe/Queue has the small steps, Pipe/Done `req_done` and
-- `req_error`, Pipe/Request, Pipe/Response and Pipe/Close the handlers. Each handler takes the
-- world and returns the new one. A handler of the protocol that a message carries as a function
-- pointer is a field of `Protocol`, and the outcome of calls to the system is in `Env`. Two marks
-- in the world stand for what the code does out of its bounds: `looped` of a client for a queue
-- that is no list any more, `crashed` for a null pointer that was followed. Pipe calls
-- `server_pool_conn` as the field `route`.
--
-- Parser (the parts that src/proto/nc_redis.c and src/proto/nc_memcache.c have in common, with
-- the comparisons of src/proto/nc_proto.h). Parser/Kind has `msg_type_t`, Parser/Bytes the tests
-- of bytes, and Parser/Machine what the loops of the four parsers share. Pointers are offsets
-- into the buffer that is parsed. Parser/Resume and Bounds prove of any parser with the laws
-- `IsParser` or `Goes` what Whole and Ends, in its directory, say of each parser; Parser/Forward,
-- Slice and Stall help to prove the laws. Parser/Settle is for a parser that leaves a value in a
-- field that it does not read again. Parser/Loop follows a parser round by round. A whole message
-- is not parsed from several buffers here: `msg_repair`, which moves the bytes of a token, is in
-- Buffer/Message.
--
-- Fragment (what `redis_fragment_argx` of src/proto/nc_redis.c and `memcache_fragment_retrieval`
-- of src/proto/nc_memcache.c have in common): the loop over the keys (`put_keys`) and the loop
-- over the servers (`queue_subs`), with what the protocol does to a fragment as a parameter.
-- Redis/Fragment and Memcache/Fragment give it. Fragment/Keys says which keys a server has,
-- Fragment/Placed and Divides are about the two loops, and Whole, below each of the two, about
-- the whole division. An index of a server behind the end of `sub_msgs`, where the code writes
-- out of bounds, stops the loop with a mark (`overrun`).
--
-- Redis (src/proto/nc_redis.c). Redis/Class has the classes of commands (`redis_argz` to
-- `redis_argeval`), Redis/Command the names of the commands by their length, Redis/Lookup their
-- comparison. Redis/Request, Round and Parse are `redis_parse_req`, and Redis/Errors and Reply
-- `redis_parse_rsp`. Redis/Forward, Chunk and Reply/Forward prove the laws of a parser,
-- Redis/Whole and Reply/Whole what follows from them. Redis/Bulk is `redis_copy_bulk`, and
-- Redis/Coalesce the handlers that join the responses to the fragments of a request; Bulk/Spec
-- says what a bulk is, Coalesce/Join and Count follow MGET and DEL, and Missing is about a
-- fragment without a response. Redis/Keys and RoundTrip follow the parser through a request of
-- several keys.
--
-- Memcache (src/proto/nc_memcache.c). Memcache/Class has the classes of commands, Memcache/Names
-- the first words of requests and responses, Memcache/Request `memcache_parse_req` and
-- Memcache/Reply `memcache_parse_rsp`, each with Forward for the laws of a parser, and Whole and
-- Ends for what follows.
--
-- Hash (the hash functions of keys in src/hashkit). Hash/Words has the arithmetic of 32-bit
-- words, Hash/Tables the two tables, Hash/Simple the functions that walk over a key once, and
-- Hash/Jenkins `hash_jenkins` with its three ways to read memory. Jenkins/Aligned and Whole
-- compare these; Hash/Xor has laws of the exclusive or, and Hash/Crc the division by the
-- polynomial of CRC-32.
--
-- Numbers are natural numbers; 32-bit and 64-bit fields wrap around where the code can overflow,
-- with `% 2 ^ 32` or `% 2 ^ 64` written out. There are three fuels: that of the binary search
-- (`bisect`), which starts with the number of points: each round shortens the interval by one at
-- least, so it is never used up; and that of the parsers (`rounds`, and `cost` for a buffer), for
-- each byte that is left one round in `redis_parse_req`, two in `redis_parse_rsp`, three in
-- `memcache_parse_req` and four in `memcache_parse_rsp`, and at most three more: a round goes
-- forward, or stays at its byte in a state that stays there less often; and that of
-- `hash_jenkins`, which walks over blocks of twelve bytes with one round for each byte. A parser
-- that has no fuel left before the end gives `starved`, which is none of the results of the code.
-- All other loops are structural on the list that they walk.
--
-- Parameters: the clock, memory allocation, `qsort`, MD5, `snprintf`, `float` and `random`, and
-- whether `char` has a sign, which are the platform's. Assertions, statistics and log lines are
-- left out.
--
-- Not modelled: the handlers of the Memcache protocol that join the responses to a divided
-- retrieval, the handlers of the Redis protocol that answer requests in the proxy (`redis_reply`,
-- authentication), connections, listeners and event loops (src/nc_connection.c, src/nc_proxy.c,
-- src/nc_core.c, src/event), the tree of timers (src/nc_rbtree.c), configuration (src/nc_conf.c),
-- statistics and logs, and third-party code (src/etcd, src/cJSON.c, src/nc_queue.h,
-- src/hashkit/nc_md5.c).
pub mod Base
pub mod Pool
pub mod Buffer
pub mod Pipe
pub mod Parser
pub mod Fragment
pub mod Redis
pub mod Memcache
pub mod Hash
