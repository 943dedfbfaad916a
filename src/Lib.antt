-- ===== src/Lib.antt =====
-- Verification of jowi-asio: lock-free containers, and the runtime of coroutine tasks on them.
--
-- The program. src/lockfree/ holds a pointer with a tag in one 64-bit word (tagged_ptr.cc), a tuple
-- in one such word (bit_tuple.cc), a bounded queue over an array of such words (ringbuf_queue.cc),
-- a reference-counted pointer (shared_ptr.cc) and an unbounded queue of linked nodes over it
-- (lockfree_queue.cc). src/ holds the event loops, each over a ring buffer of coroutine handles, with
-- a registry from threads to loops (event_loop.cc), and a pool of threads that run a loop
-- (executor.cc), beside tasks, awaiters and pollers.
--
-- The files.
--   Base         shared names, tests on numbers, lists and sums over them, `bit_or` of disjoint
--                words, runs of one thread
--   Atomic       std::atomic: the weak and the strong compare-exchange on one cell, as the wrappers in
--                src/lockfree/tagged_ptr.cc and bit_tuple.cc forward to them
--   TaggedPtr    src/lockfree/tagged_ptr.cc. Orders: `MemoryOrder` and its translations. Words: the
--                packing. Atomic: `exchange_tag`, `exchange_ptr` and the stores
--   BitTuple     src/lockfree/bit_tuple.cc: `std::atomic<BitTuple>`
--   Ringbuf      src/lockfree/ringbuf_queue.cc. Node: `RingbufQueueNode`. Ringbuf itself: `push`,
--                `try_push` and `pop` of `RingbufQueue` for one thread; Index, Claims, Invariant, Refine
--                and Single are about them. Threads: the same for any number of threads
--   LockfreeQueue  src/lockfree/lockfree_queue.cc: `push`, `pop` and `clear` of `LockFreeQueue`; Spec is
--                its sequential behaviour without nodes; Chain, Refine and Runs connect the two.
--                Threads: the same for any number of threads; Links, Steps, Once, Lost, Size, Ranks,
--                Acyclic and Alone are about it
--   EventLoop    src/event_loop.cc. Registry: the registry of loops. Loop: `push`, `apush`, `run_one`,
--                `run_forever` and `run_until_complete` over a list of handles, and the wait of
--                `TaskAwaitable` in src/basic_task.cc; Run is about them. Ring: the loop over its
--                `RingbufQueue`; Refine and Drains are about it. Threads: `push` and `run_one` by any
--                number of threads that share a loop; Frames is about it
--   SharedPtr    src/lockfree/shared_ptr.cc: `AllocData` and the handles of `SharedPtr`; Count and
--                Assign are about them. Atomic: `std::atomic<SharedPtr>` for any number of threads;
--                Owners, Invariant and Counting are about it; Register is what it
--                promises to its threads, Linear shows that it keeps that, Stalls what it waits for, and
--                Alone that nothing else keeps a call from its end
--   Task         src/task.cc: `TaskError` and `PromiseState`. Promise: what is read from it. Concepts: the
--                concepts of promises and tasks, as tests on the members of a type
--   Awaitable    src/awaitable.cc. Infinite: `InfiniteAwaiter`; Timed: `TimedAwaiter`; Pollers: the
--                pollers of src/awaitables.cc under them; Clock: std::chrono as a parameter;
--                Concepts: the concepts of awaitables, pollers, mutexes and semaphores
--   BasicTask    src/basic_task.cc. BasicTask itself: `LoopAwaitable`, with Waits about it, and Sleep
--                and AsyncPush about the sleeps of src/awaitables.cc and `apush` under it; Transform:
--                `await_transform` with the types of src/awaitable.cc; Nested: loops that are run by
--                their own coroutines; Fib: `fib`, with Runs about it; Promise: `BasicPromise` and
--                `BasicTask`
--   PoolWorker   src/executor.cc: `PoolWorker`. Flags: its start and stop; Worker: owner and thread
--   Executor     src/executor.cc: `parallel`, `parallel_expected` and `PoolExecutor`;
--                Parallel and Pool are about them, and Stale about thread ids that are used again
--
-- Conventions. A word is a natural number with its wrap-around written out; an address is a
-- number. A loop round a compare-exchange runs over a list that has one entry for each attempt,
-- and is unfinished when the list is used up; so no theorem assumes that a loop ends, and those
-- that say that it does name the attempts that are enough: two that do not fail spuriously, or,
-- under the interference of other threads, two in a row that see the same value. The loops of
-- `LockFreeQueue` take fuel, one unit for each node or round, and one unit is enough for `push`
-- and `pop`; `clear` needs one more than there are items. The waits of the awaiters and the run
-- of a loop take a number of rounds, and theorems give the rounds that are enough: one for each
-- poll, or one more than there are handles to resume. The interleaving models take each atomic
-- operation as one step, in one order for all threads: the weaker memory orders are not modelled,
-- but for their translation. In LockfreeQueue.Threads an operation of std::atomic<SharedPtr> is such a
-- step; that it is a loop, whose exchange may wait for the load of another thread, is modelled in
-- SharedPtr.Atomic alone.
--
-- Parameters. Where a std::tuple keeps its fields in its bytes (BitTuple.Layout), with the hypotheses
-- that its copy keeps the fields, and that fields and padding make up the bytes. What a move leaves of a value (Task). The operations of
-- clocks, mutexes and semaphores (Awaitable.Clock and Pollers), for mutexes with the hypothesis that
-- they take, refuse and share the mutex as the standard says (IsMutex), for clocks with the one that
-- they are steady and sleep at least as long as they are told (IsSteady). Whether the weak
-- compare-exchange fails spuriously, for the event loop with the hypothesis that it lets every call
-- on the ring end (IsFair). What a coroutine does when it
-- is resumed (EventLoop.Loop), with the hypotheses that the coroutines reschedule finitely often
-- (IsBounded), push handles of frames at addresses of 48 bits (IsFrame) and, for parallel tasks, that
-- the run of the loop settles the tasks and keeps their frames (RunsTo); such a coroutine does not run
-- the loop itself, as those of BasicTask.Nested do. What the memory of a worker's flags holds before
-- they are initialised. The address that `new` gives.
--
-- Not modelled. The module interfaces have no run-time content. Destructors of the
-- containers only release what they hold. `run_until_complete` does not compile for a `BasicTask`; it
-- is modelled for a task that converts to a coroutine handle.
-- Threads and coroutine frames belong to the platform: what a body does between suspensions is a
-- parameter.
pub mod Base
pub mod Atomic
pub mod TaggedPtr
pub mod BitTuple
pub mod Ringbuf
pub mod LockfreeQueue
pub mod SharedPtr
pub mod Task
pub mod Awaitable
pub mod EventLoop
pub mod BasicTask
pub mod PoolWorker
pub mod Executor
