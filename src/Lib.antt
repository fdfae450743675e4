-- ===== src/Lib.antt =====
-- tit-co: coroutines on epoll, in C++
--
-- The program runs coroutines on threads. A scheduler (src/scheduler.cc) is a thread that waits in
-- `epoll_wait`, resumes the coroutines whose descriptors are ready, then those that other threads
-- have added or made ready, then those whose time is up. Coroutines block on descriptors
-- (src/io_event.cc), on a mutex (src/mutex.cc) and on channels (src/channel.cc); what blocks is put
-- in a queue or a timer map, and the scheduler's `Yield` goes back to the loop. An RPC layer
-- (src/rpc, include/rpc) sends protobuf messages over sockets that block this way: socket objects
-- and servers (include/net, src/net) stand between it and the calls of src/sock.cc. Texts are put
-- together in a buffer of fixed size (include/stream.h, src/stream.cc).
--
-- Which file models what:
--   * Io/SockCtx: src/sock_ctx.cc, the two waiters of a descriptor.
--   * Io/Epoll: `AddEvRead`, `AddEvWrite`, `DelEvRead`, `DelEvWrite` and `DelEvent` of
--     src/epoll.cc; `epoll_ctl` is the parameter `Kernel`, with its documented effects as laws.
--     Io/Epoll/Sync relates the contexts to the kernel's interest list. Io/Epoll/Setup: the
--     constructor and the destructor.
--   * Io/Epoll/Wakeup: `Wakeup` and `HandleWakeUpEvent` with the loop and the threads that add
--     tasks, as a step relation with every atomic operation a step.
--   * Io/Event: `IOEvent` of src/io_event.cc, `AddIoEvent` and `DelIoEvent` of src/scheduler.cc, and
--     the loop's choice of coroutines for one event.
--   * Pool: `Copoll` (src/co_poll.cc) and `Coroutine` (src/coroutine.cc), with the calls that the
--     scheduler makes of it. Pool/Ids is about the ids.
--   * Task: `TaskManager` (src/task_manager.cc) and the loop's collection.
--   * CoState: the states that a timer and a channel race for.
--   * Timer: `TimerManager` (include/timer_manager.h, src/timer_manager.cc). The multimap is a list
--     in order, an iterator the number of a node; an insertion at a hint is the standard's. The
--     clock is a function of how often it was read. Timer/Bag has the abstract view, a quotient.
--   * Mutex: `Mutex` (src/mutex.cc) and coroutines that use it as `MutexGuard` does, with or without
--     timers of earlier waits that resume one in `Lock`.
--   * Channel: `ChannelImpl` (include/channel.h, src/channel.cc) on a ring of bytes; Channel/View
--     has the abstract queue of blocks; Channel/Store and Channel/Writes are about `Write`,
--     Channel/Taken and Channel/Reads about `Read`; Channel/History, Channel/Answers and Channel/Fifo
--     about all calls together, Channel/Expiry, Channel/Log, Channel/Ordered and Channel/Timed with
--     waits that run out of time; Channel/Alloc the memory of a wait context.
--   * Rpc/Message: `Protocol` and its serialisation (include/rpc/protocol.h); the generated
--     protobuf class is the parameter `Codec`, whose law is that parsing inverts serialising where
--     the numbers are words of 32 bits and the name is in UTF-8.
--     Rpc/Frame: `RpcProtocol` (src/rpc/rpc_protocol_handler.cc), with the answers of the socket
--     as arguments. Rpc/RoundTrip and Rpc/Limits are about what arrives.
--     Rpc/Loops: the client's `SendLoop` and `RecvLoop`, by what the channel and the socket give.
--     Rpc/Client: the request map of `RpcClient` (include/rpc/rpc_client.h, src/rpc/rpc_client.cc).
--     Rpc/Server: `OnNewConn` (src/rpc/rpc_server_provider.cc) and `ProtocolManager`
--     (include/rpc/protocol_manager.h). Rpc/Hello: the service of include/rpc/protocols/hello.h.
--     Rpc/Calls: a whole call, from the client's message to its result, by all of these.
--     Rpc/Casts: the casts of the service's two messages. Rpc/Plain: a codec for the tests.
--   * Sock: the loops of src/sock.cc that retry a system call; what the kernel and `ev.wait` answer is
--     a list with one entry for each round. Sock/Streams is about `recvn`, Sock/Sends about `send`,
--     Sock/Frames about a message that goes from `SendProtocol` to `RecvProtocol` over a connection,
--     Sock/Longest about the longest one; Sock/Ends has `close` and `shutdown`.
--   * Stack: a stack that coroutines share, with `Resume`, `SaveStack` and `Recycle`
--     (src/scheduler.cc) and the buffer of include/stream.h. Memory is a function of the offset.
--     Stack/Copies and Stack/Kept are about what is restored, Stack/Losses about what is not.
--   * Sched: `SchedulerImpl` (src/scheduler.cc) with one round of its `Loop` over the models of the
--     managers; what a coroutine does between two switches is a script, an argument.
--     Sched/Added, Sched/Ran and Sched/Loop are about what the round resumes, Sched/Kept and
--     Sched/Wakes about how long the loop sleeps after it, Sched/Manager about `SchedulerManager`.
--     Sched/Setup: the constructor, the destructor, `Start`, `Stop`, and `Yield` before its jump.
--   * Net/Address: include/net/address.h and include/byte_order.h. Net/Endpoint: the texts of
--     addresses, and addresses from texts (include/sock.h). Net/Socket: `Socket` and
--     `TcpConn` (include/net/socket.h, include/net/conn.h), each operation with the calls it makes
--     and, as arguments, the answers to them. Net/Closing is about the descriptor of a socket.
--     Net/Server: `TcpServer` (include/net/tcp.h, src/net/tcp.cc). Net/Replies: `NetworkServer`
--     (include/net/server.h) with `ProtocolHandler` and `RecvProtocol`, as steps of the coroutines
--     of its connections, with the answer to a message from Rpc/Server.
--   * Text/Digits: `convert` and `convertHex` of src/stream.cc; Text/Decimal, Text/Reading and
--     Text/Hex are about their texts. Text/Buffer: `FixedBuffer`; Text/Stream: the operators of
--     `Stream`; Text/Items: what they show; Text/Output is about a stream after many of them.
--     Text/Units: `formatSI`, with Text/Units/Digits about what it shows and Text/Units/Spelled about
--     texts with a point; Text/Binary: `formatIEC`,
--     with Text/Binary/Doubles about the doubles and Text/Binary/Digits about what it shows.
--   * Sys/Lock and Sys/Counter: include/base/mutex.h and include/base/atomic_int.h. Sys/Clock:
--     src/t_time.cc and include/t_time.h. Sys/Signals: `FailureHandler` of src/os.cc.
--     Sys/Singleton and Sys/ThreadLocal: include/base/singleton.h and thread_local_singleton.h, whose
--     calls of the thread library are steps. Sys/Errors: include/co_error.h.
--   * Base: native numbers with Boolean tests, lists that are measured by them, word sizes.
--
-- Conventions. A `uint32` is a number below 2 ^ 32 with its wrap-around written out, and -1 as a
-- `uint32` is 2 ^ 32 - 1; a signed integer that is divided, or compared with -1, is a `ℤ`. An
-- operation that holds a thread mutex is one step; what it does after the unlock is its outcome. An
-- access past the end of a vector and an invalid iterator give `none`, and so does a CHECK that
-- fails, which ends the process; the scheduler's loop sets a flag there, and a server's `OnNewConn`
-- comes to `breaks` where a null pointer becomes a text. Memory that is not part of a state (what lies behind
-- the wait context of a channel, or past the top of a shared stack) is not tracked: Channel/Alloc and
-- Stack/Losses say what is written there. No definition uses fuel:
-- every loop is over a list, or over the digits of a number, which get fewer; a loop of system
-- calls ends in `none` where the list of answers ends before it does. The conversion to a double
-- tries ten doublings of the distance between doubles, which is enough below 2 ^ 63.
--
-- Not modelled: the context switch (src/context, assembly of another project), the atomic
-- intrinsics (include/atomic.h, of another project, taken as atomic), the threads of include/base
-- and the log (include/log), whose code is in a binary library, with the log's own copy of the text
-- buffer, what "%.12g" prints and what "%.2f" prints in `formatSI` (arguments), the socket options,
-- which only forward, and the generated protobuf code. How two coroutines of different threads
-- interleave inside one operation after its unlock is not modelled either.
pub mod Base
pub mod Channel
pub mod CoState
pub mod Io
pub mod Mutex
pub mod Net
pub mod Pool
pub mod Rpc
pub mod Sched
pub mod Sock
pub mod Stack
pub mod Sys
pub mod Task
pub mod Text
pub mod Timer
