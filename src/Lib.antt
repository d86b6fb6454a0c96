-- ===== src/Lib.antt =====
-- Verification library of agilepool, a goroutine pool with adaptive scaling.
--
-- The program. `Pool` (pool.go) takes tasks from submitters and hands them over sharded channels to
-- workers (worker.go); what the channels cannot take goes to a chunked overflow buffer
-- (task_buffer.go). Workers without work park in an idle container (internal/idle). A sampler keeps
-- histograms of the submit, consume and exit rates (histogram.go), from which a scaler decides how
-- many workers to start. config.go holds the options.
--
-- The parts, each with a module of its own:
--   Prelude     lists, Boolean tests, int64 as integers over the native numbers, calls that may panic
--               (Run), float64 as a parameter (Float) with a fixed-point stand-in for tests (Fixed)
--   Config      config.go: the defaults, every With* option as a constructor, NewConfig as
--               new_config
--   Shards      pool.go, resolveTaskQueueShards and the per-shard capacity of NewPool, on 64-bit
--               patterns
--   Histogram   histogram.go: bucketIndex, add and median; the median as its exact double
--   Idle        internal/idle: Slice (slice.go), LinkedList (linkedlist.go, nodes in a store by
--               address), RingQueue (ring_queue.go), Treap (treap.go) and MinHeap (heap.go);
--               Contract has the interface of idle.go with what it promises, Containers fills it for
--               each of them and has the switch of NewPool
--   SpinLock    spinlock.go: Lock and Unlock as atomic steps of goroutines that interleave
--   TaskBuffer  task_buffer.go: chunks in a store by address, with the recycling through sync.Pool,
--               against a bounded first-in first-out queue
--   Pool        pool.go and worker.go: submit, worker.run, runTask, Close and the counting part of
--               scaleIfNeeded as atomic steps (advance_submit,
--               advance_worker, advance_close, scale) of goroutines that interleave (Step)
--   Scaling     pool.go: statsSampler, sampleRates, getMedianRates, and scaleIfNeeded up to its lock,
--               as decide
--   Parking     pool.go: addToIdle, the tick of expiredWorkerCleaner and the loop of scaleIfNeeded
--               that starts workers, over any container that fulfils the contract
--   NewPool     pool.go: the pool that NewPool builds from a config, before its goroutines run
--   Tasks       task.go: the retry loop and the default back-off
--   Hooks       hook/hook.go and hook/dynamic/dynamic.go: registration and dispatch
--   Execution   pool.go and worker.go: runTask with its deferred functions, dispatchHook,
--               handlePanic, and the public submit functions
--   RequestContext  internal/context: labels, latencies, the chain of contexts, TraceID
--
-- State is passed explicitly; a goroutine's place in the code is a constructor of Phase, and each
-- atomic operation of sync/atomic, each channel operation and each locked section of the overflow
-- buffer is one step. In Pool the overflow buffer is its queue, the tasks and hooks have no effect,
-- and a wait may be cancelled at any time, whatever the context. The move of the send cursor by
-- PushAndForward belongs to the step of its locked section. A shard index is a remainder where the
-- code masks, since the number of shards is a power of two. In Scaling, what the decision reads of the
-- pool is an argument, since other goroutines run between its loads; the clock is a number of
-- nanoseconds. In Parking each critical section of muIdle is one step.
--
-- Bounds and fuel. An int has 64 bits. The loops of resolveTaskQueueShards run on fuel; 63 rounds
-- are enough, since a power of two in an int has an exponent below 63. The loop of the linked list
-- runs on its length and that of the heap on the number of its elements, which are enough, since a
-- run that ends the fuel would panic and none does. The treap's priorities and whether its
-- sync.Pool finds a node, GOMAXPROCS, float64, the package container/heap (with its documented
-- behaviour) and the panic handlers are parameters. The retry loop of a task runs on fuel, of
-- which more than its number of rounds is enough unless RetryNum is the largest int. rand.Read,
-- hex.EncodeToString and time.Time are parameters.
--
-- Not modelled: stack traces and logging (text for a log line), SetLogger, and the getters of a
-- stored field; the example, the benchmarks and the stress harness of test/. sync.Mutex, channels and
-- sync.Pool are the language's, used as documented.
pub mod Config
pub mod Execution
pub mod Histogram
pub mod Hooks
pub mod Idle
pub mod Parking
pub mod NewPool
pub mod Pool
pub mod Prelude
pub mod RequestContext
pub mod Scaling
pub mod Shards
pub mod SpinLock
pub mod TaskBuffer
pub mod Tasks
