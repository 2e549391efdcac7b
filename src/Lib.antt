-- ===== src/Lib.antt =====
-- gb_server: a game server whose sessions carry framed messages to workers, each of which runs
-- its tasks on its own thread. Paths are from the repository's root.
--
-- The parts and how they interact. A session packs a message behind a 24-byte header and queues
-- it in its message stream, which writes it block by block to the transport; the other side cuts
-- its reads into messages again. A received message is given to the executor that the router
-- chooses by the id of the user: the worker that the table of entity routes names, or one of the
-- workers of a service type by a hash. A worker runs the tasks of its queue and keeps the remote
-- calls that wait for their response. Parameters of remote calls are packed in the format of
-- msgpack. A thread runs its timers in each round of its loop.
--
-- - Base: tests, lists, signed words and powers over the native numbers. A signed integer is a
--   sign and a number (pos, negsuc), an unsigned one a number; conversions wrap at 2 ^ w.
-- - Msgpack (src/msgpack/msgpack.hpp): Format has the bytes of format_t, Pack the functions
--   pack_type of the integers, texts and blobs, Unpack the Unpacker with its cursor and error
--   code, unpack_number, and unpack_type of texts and blobs. Integers and Numbers hold the round
--   trip of numbers, Blobs those of texts and blobs, Arrays the sequences and maps of C++.
-- - Msgpack/Lua (src/msgpack/msgpack.hpp, msgpack.cpp): Values has pack_stack_proxy and
--   pack_table, Stack the Lua stack with lua_rawset and lua_rawseti, Read unpack_stack_proxy and
--   unpack_table, Args pack and unpack. Plain says which values keep their form.
-- - Router/Entities (src/network/router/lock_free_route_table.h): LockFreeRouteTable with Bind,
--   BindSingle, Unbind, Freeze and Lookup. Laws compares it with a plain map.
-- - Router/Services (src/network/router/route_table.h, router.cpp): the settings, freezing, the
--   choice of a worker and GetExecutor.
-- - Stream (src/message_stream/message_stream.cpp, message_header.h): Header is MessageHeader,
--   Split is split_and_process_message with identify_message_header, Machine is the specification
--   that reads byte by byte, Chunks is on_read_some for one read after the other, Frames is Send
--   of src/network/io/session.cpp without compression.
-- - Stream/Sending (src/message_stream/message_stream.cpp): the pending queue, try_start_send,
--   async_send_message, trigger_send and on_write_some; Reachable has the relation of the steps.
-- - Stream/Flow (src/message_stream/flow_controller.cpp): the quotas of a FlowController.
-- - Workers (src/worker, src/network/rpc/executor.h): EnqueueTask, Post, the queue, AllocRpcSeq,
--   the pending calls, GetWorker and PostToWorker, and WorkerExecutor::Dispatch. History has
--   what happens to a worker, Order follows the tasks of each thread through the queue.
-- - Buffers (src/buffer/buffer.cpp): Write is WriteBuffer with Next, BackUp, Reserve, SetData,
--   Append and Extend, Read is ReadBuffer with Next, BackUp and Skip, and SwapOut. Message is
--   Send of src/network/io/session.cpp as it fills a buffer; Sent compares it with Stream/Frames,
--   and Delivered follows the messages to the receiver.
-- - Rpc (src/network/rpc): Call is rpc_call.cpp, TimerPool rpc_timer_pool.cpp, Sequence the union
--   SequenceId, Network the calls and responses of src/network/manager/network_manager.cpp with
--   the tasks of the workers. Measure, Once and Runs count results over all runs, Answers follows
--   a response to its call. Await is RpcAwaitState of rpc_coro.h.
-- - Timers (src/timer/timer.cpp, timer_manager.cpp): the two queues of a TimerManager and its
--   operations; Served and Endless are about the loops of Update.
-- - DbPool (src/db/postgres/db_pool.cpp): DbConnectionPool with Start, Stop, Acquire, Release and
--   the heartbeat. Runs has the calls one after the other with the connections that are out,
--   Counts, Totals and Accounts are about the counters, Waiting, Turns and Starving about the
--   waiters.
-- - Shutdown (src/async/shutdown.cpp): ShutdownManager, whose threads interleave. Order and
--   Schedules follow the callbacks, Requests how far the phases go.
-- - Compression (src/buffer/block_wrappers.cpp): the two block streams; Writing and Blocks
--   describe what a writer has written and how it is read, RoundTrip joins them.
-- - RoundRobin: Redis is the pool of src/db/redis/redis_pool.cpp, IoServices the one of
--   src/network/io/io_service_pool.cpp.
-- - Nats (src/network/nats/nats_manager.cpp): Wildcards is NatsWildcardMatch and MatchSub, which
--   Tokens compares with the matching of NATS by tokens; Requests has AsyncRequest with its
--   response and its timer, Once counts the outcomes. Inboxes has GenInbox, ParseInboxWorkerIndex
--   and OnNatsInboxMsg, which Names is about.
-- - Connection (src/message_stream/byte_stream.cpp, transport/tcp_transport.cpp): a ByteStream
--   that connects, times out and closes; Closing counts the calls of on_closed.
--
-- State and effects. Each operation takes the state of its component and returns the new one;
-- what a callback or the transport sees is a list in the state. Locks and atomic operations are
-- single steps, except in Await, Shutdown and Connection, where each of them is a step of its own,
-- but for the timeout of a connection, which looks at the status and closes in one step: what comes
-- between them is a close of its own. In Await a load may miss a store that has been made. The queue of
-- a worker keeps the order of each thread's tasks, not that of all. The flow controller's answers to the sender, on_sending, the resolver and the selectors
-- are arguments. A buffer is the list of its bytes and a pointer into it is a cursor.
--
-- Fuel. Bind restarts at most once for each entry of the table and has one unit of fuel more; the
-- splitting loop has one unit for each byte of the buffer and one more. The results below say
-- when this is enough. Reserve has a unit for each byte and one more, Skip one for each block and
-- one more. Unpacking a value of Lua has a unit for each level of tables, and unpack one for each
-- argument and one more; a loop of Update has one for each entry of its queue, one more for each
-- timer that is due, and a last one. The loop that fills a pool of connections up has a unit for
-- each connection of the minimum and one more; to_string has 20 rounds, since 2^64 is below 10^20.
--
-- Parameters. Whether a connection is alive or can be made, and what the NATS library answers,
-- are arguments; the compression of a block and protobuf's coding of a length are parameters
-- whose laws IsCodec names. What the machine does with floating point numbers, what memory there
-- is and what it holds at first, and what the function of a timer does to the manager are
-- parameters, and so is how many values the stack of Lua may hold. The clock stands still during a loop of Update.
--
-- Not modelled: the transports (Asio, OpenSSL, KCP), the bindings of Lua, the connections to the
-- databases and to NATS, and HTTP, which call libraries or are copies of them; the streams around
-- zlib, the counts of references to blocks, the handling of signals, and the set-up of servers
-- and clients.
mod Base
pub mod Msgpack
pub mod Router
pub mod Buffers
pub mod Stream
pub mod Workers
pub mod Rpc
pub mod Timers
pub mod DbPool
pub mod Shutdown
pub mod Compression
pub mod RoundRobin
pub mod Nats
pub mod Connection
