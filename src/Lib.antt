-- ===== src/Lib.antt =====
-- shmipc-cpp: streams between two processes over shared memory. A process writes a message into
-- buffers of a shared pool, puts the offset of the first into a ring in shared memory, and wakes
-- the peer over a socket when the peer is not already consuming.
--
-- The parts, the files that model them, and the code:
--
-- - Shm: the bytes of the mapping and the native loads and stores (the memcpy helpers of
--   src/queue.cpp and src/buffer/slice.cpp). An address is an offset into the mapping. Shm/Laws
--   and Shm/Span relate loads to stores.
-- - Error: the kinds of error and Result (include/shmipc/error.hpp), and to_io_error_code
--   (src/error.cpp).
-- - Queue: class Queue (src/queue.cpp, include/shmipc/queue.hpp) for the layout of x86_64: head,
--   tail and flag behind the capacity, elements of twelve bytes. Layout has the invariant, Fifo
--   the abstract bounded queue and the refinement, Flag the working flag.
-- - Queue/Region, Queue/Manager: the bytes of a queue, and QueueManager (src/queue.cpp) over the
--   outcomes of its system calls.
-- - Buffer/Pool: any sequence of pops, writes and pushes of one list, as a step relation on the
--   memory and the buffers that are out.
-- - Buffer/Manager: BufferManager (src/buffer/manager.cpp): allocating and recycling one buffer,
--   and looking a buffer up by its offset. Choice is about which list serves, Chains has the
--   operations on several buffers at once, Harvest what the inner loop of alloc_shm_buffers
--   takes. The registry and the layout of several lists are not modelled.
-- - Buffer/SliceList: SliceList (src/buffer/slice.cpp).
-- - Buffer/Linked: LinkedBuffer (src/buffer/linked.cpp). Read has the reading side, Write the
--   writing side. Reclaim says what a reader needs of the manager, and OneList (with PushFrame)
--   fills it for a manager of one list; ReadLoop, Bytes, Peek, Discard and Agree are about
--   reading. Supply says what a writer needs, and FromList (with Shared, Filling, PopFrame,
--   Allotted, Several and FromHeap) fills it for a manager of one list, from its free buffers and
--   then from the heap; WriteStep, WriteLoop and Appending are about writing.
-- - Protocol: headers and events (src/protocol/event.cpp) and the metadata of the handshake
--   (src/protocol/initializer.cpp).
-- - Channel: Channel (include/shmipc/sync/channel.hpp), used by any number of threads, an
--   operation that waits a step that changes nothing.
-- - Stream: Stream (src/stream.cpp), with what it calls of its session (src/session.cpp). Receive
--   has the reading side, where a wait is an answer of its own; Send has flush and close, where
--   the writing thread, the waits of flush and the other processes are arguments. Order is about
--   what reaches the reader, Flush about what a flush leaves.
-- - Session: the streams of a session and its handlers for the events of the socket
--   (src/session.cpp). Events has the loop of handle_events, for any way of handling one event;
--   Chunks and Ends are about that loop, Handlers and Locality about the handlers of this
--   session, and Arrival brings the two together; Polled is about the polling event. The loop is
--   given one round more than there are bytes, since each event takes eight bytes or more.
-- - Config: Config and Config::verify (src/config.cpp, include/shmipc/config.hpp).
-- - Queue/Wakeup: the wake-up protocol of src/session.cpp (wake_up_peer, handle_polling) and
--   src/stream.cpp as a step relation between the producer, the consumer and the socket; every
--   store and load of the flag is a step of its own.
-- - Buffer/Header and Buffer/Slice: BufferHeader and BufferSlice (src/buffer/slice.cpp). Window
--   is about reading and writing, Handover about what the peer rebuilds from the header.
-- - Buffer/FreeList: BufferList (src/buffer/list.cpp). Chain and State have the invariant,
--   State/Pop, State/Push, Create and Initial the operations.
--
-- State is explicit: an operation takes the memory and returns it with its result. An
-- std::uint32_t is a number with % 2 ^ 32 written out, an std::int64_t its bit pattern below 2 ^
-- 64.
--
-- Bounds and fuel: the loop of BufferList::push runs until its compare-exchange succeeds; it is
-- given one round, which is enough when no other process moves the tail between its load and the
-- exchange. The loop of BufferList::pop has the 200 rounds of the source. The loops of
-- LinkedBuffer that read have one round for each slice and one more, since a round that does not
-- end the loop drops a slice; the loop of write_bytes has one for each slice, one for each byte
-- and one more; the inner loop of alloc_shm_buffers has one for each buffer that the list says it
-- has and one more.
--
-- Not modelled: sockets, threads, timers, file descriptors, mmap and logging; the mutex of
-- Queue::put, since every operation runs alone here; interleavings inside BufferList::push and
-- BufferList::pop; a list whose buffers hold no byte, where the constructor of BufferSlice
-- asserts; the message texts of errors.
pub mod Common
pub mod Shm
pub mod Error
pub mod Queue
pub mod Buffer
pub mod Protocol
pub mod Config
pub mod Channel
pub mod Stream
pub mod Session
