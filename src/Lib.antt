-- ===== src/Lib.antt =====
-- A verification library for the host side of the megakernel runtime: the paged KV cache, src/kv/cache.cpp
-- with its interface src/kv/cache.h and its bindings src/bindings/kv.cpp, the decode service over it,
-- src/decode/runtime.cu with src/decode/abi.h, and the compiler driver src/jit.cpp.
--
-- The program. Attention layers keep their keys and values in physical pages, the blocks. All blocks
-- belong to one process-global pool (KVBlockPool, g_kv_block_pool), which counts the references to each
-- block and links the unreferenced ones in an intrusive free queue. A handle (KvHandle) lays a page
-- table over the pool: for each layer, row of the batch and logical block a slot, which is -1 or names
-- a block. The process-global prefix cache (g_prefix_cache) maps the SHA-256 digest of a prefix to the
-- blocks that hold it, one for each layer; a block that a finished row gives back keeps its digest in
-- the free queue, where an attach revives it until an allocation takes the block for something else.
-- The decode service and the Python server call a handle before each prefill chunk and each decode
-- step: the call allocates the blocks that the step writes, releases the ones that have left the
-- sliding window, and puts copies of the changed host tables on a CUDA stream.
--
-- Which file models which part.
-- - Common: the library names that all files share, lists over the native numbers, C++ integers, tests.
-- - Kv/Pool: KVBlockPool, with its queue operations. Segment describes the doubly linked list between
--   two ends, FreeList the well-formed queue as a list of indices; Push, Remove and Init treat the
--   operations.
-- - Kv/Prefix: PrefixCacheEntry and the hash map, and the edit of prefix_cache_remove_block_nolock.
-- - Kv/Global: the state behind g_prefix_mu and the three functions that take and return references.
--   Global/Invariant says when pool, reference counts and cache are consistent.
-- - Kv/State: KvHandle::State, the index functions kv_pt and kv_evict_until, and the pure helpers.
-- - Kv/Store: all that a call reads and writes, and the monad of calls. Store/Ensures is the logic in
--   which the calls are treated: what holds where a call returns and where it throws, while it does not
--   run into undefined behaviour.
-- - Kv/Rows: kv_ensure_blocks_for_row, kv_evict_below, kv_release_all_blocks_nolock. Rows/Inv is the
--   invariant of a handle, Rows/Slots, Rows/Blocks and Rows/Access say that these functions keep it.
-- - Kv/Decode, Kv/Prefill, Kv/Attach, Kv/Publish: the calls of a handle of these names, and free_row,
--   set_cache_seqlens, the destructor, prefix_cache_clear and prefix_cache_stats. The Keep module of
--   each says that its calls keep the invariant, Attach/Placed, Publish/Found and Publish/RoundTrip how
--   publish and attach fit together, Rows/Present, Prefill/Served and Prefill/Present which blocks
--   are there behind a call, Decode/Release what the destructor leaves, Attach/Atomic how an attach fails.
-- - Kv/Create: the constructor, runtime_kv_init_from_ptrs.
-- - Kv/Rebind: rebind, with the destructor that runs where it throws. Rebind/Region and Rebind/Copy treat
--   its loops, Rebind/Parts its checks, sizes and copies to the device, Rebind/Made the whole.
-- - Kv/Calls: the calls as one type and their sequences. Kv/Stats: stats, free_blocks, host_snapshot.
-- - Kv/Bindings: the methods that src/bindings/kv.cpp gives to Python. Bindings/Agree and Bindings/Batch say which
--   elements of an array a call reads, Bindings/Within and Bindings/Served that these are the list's.
-- - Kv/Tests: a small handle, and the theorems at concrete inputs.
-- - Runtime/Drain: nmc_attn_drain_splits and nmc_build_attn_queue_words, the splits of each row's attention
--   and the queue of tasks for them. Drain/Bounds treats the splits, Drain/Queue the tasks.
-- - Runtime/Refresh: nmc_refresh_attn_drain_queue, which uploads that queue when the splits have changed.
--   Refresh/Synced relates the host's cache of the splits to the device's tables.
-- - Runtime/Service: NmcDecodeService with apply_desc, set_geometry, set_slot, get_state and the signals.
--   Service/Invariant says when a service is well-formed, and treats the change of its geometry; Service/Slot
--   treats set_slot.
-- - Runtime/Step: the host's part of one step of NmcDecodeService::run. Step/Bucket treats the choice of the
--   schedule variant, Step/Progress the rows' columns.
-- - Runtime/Loop: NmcDecodeService::run as a machine, one move of Loop.loop_move for each stretch of code
--   between two points where another thread's call can come in, and those calls. Loop/Invariant, Loop/Moves,
--   Loop/Flags and Loop/Calls carry the invariant through moves and calls, Loop/Handshake and Loop/Answer treat
--   pause and stop, Loop/Requests how far the loop is from answering them, Loop/Wedge the debug mode of
--   finish_watchdog_wedge, Loop/Rest a loop that nobody calls.
-- - Runtime/Facade: the class DecodeService, whose methods stop working when it is closed. Facade/Closed
--   relates uses of the object to runs of the service, and treats close; Facade/Pausing treats signal_pause with
--   wait_paused.
-- - Runtime/Scratch: ensure_sample_capacity, ensure_sampled_host_capacity and ensure_zero_regions_dev, which
--   a step calls in front of its snapshot; Scratch/Calls and Scratch/Ready say that capacities and buffers agree.
-- - Runtime/Generate: runtime_generate, a run in lockstep without a service. Generate/Checks says what its checks
--   leave to its loop, Generate/Schedule treats its walk along the schedule variants, Generate/Rows one row,
--   Generate/Tested and Generate/Steps the loop, and Generate/Run the whole run.
-- - Runtime/Failure, Runtime/Monad and Runtime/Float: errors, computations that may throw, and the tests on
--   floats. Runtime/Tests: a small service, and the theorems at concrete inputs.
-- - Jit: jit_compile of src/jit.cpp, which compiles the kernels for the runtime and caches them in a directory
--   that workers share. Jit/Names has its strings and paths; Jit/Artifact says what a call returns
--   and what a later one finds, Jit/Working that a call returns where the compiler works; Jit/Tests are the
--   theorems at a small request.
--
-- How state and operations correspond.
-- - A std::vector is its size with a function on its indices, and an access out of bounds of it is
--   undefined behaviour, which ends a run. A pointer to a KVCacheBlock is an optional index.
-- - An int that the code has checked, or keeps from being negative, is a natural number; all others
--   (slots, lengths, positions, arguments) are integers. Sums on int are taken not to overflow: reference
--   counts stay below the number of slots of all handles, positions below kv_max_tokens. size_t
--   has 64 bits, and the products of checked_product are compared with its bound.
-- - A KvError is a value with the state as it stands at the throw; an error names the message, without
--   the label that kv_validate_length puts in front of it.
-- - Whatever stands under std::lock_guard is one step. The other handles of the process occur as the
--   numbers of references that they hold.
-- - CUDA is no part of the repository. A list in the store says which of the calls to come succeed,
--   and is arbitrary. A copy onto the stream takes effect at once in the device tables of the store.
-- - An array argument is a function on its indices of which the source reads the first BS, or none for
--   a null pointer; a key is its list of bytes.
-- - The loops of the cache and of the queue run over ranges that are known in front of them, so that no fuel
--   is needed. The service's loop has no end of its own: a run of it is a sequence of moves and calls of any
--   length, and loop_moves takes one entry of a list for each move.
-- - A move of the loop meets what is outside of it, the kernels, the streams, the watchdog's clock, the
--   blocks that are free and the callback, as a record of answers that is arbitrary at each move. A decode
--   kernel counts as in flight from its launch until a synchronization that ends in time.
-- - A wait for the stream that outlives the watchdog ends the loop in production, where the end of the process
--   that nmc_arm_process_self_destruct arms is not modelled; in debug mode the loop hangs until the stream ends.
-- - Between two uses of the files by jit_compile other workers act as an arbitrary function on them, one for
--   each of the moments that Jit.Moment names; what the theorems ask of it is a hypothesis.
-- - Another thread's call is one step under the mutex. set_slot and set_geometry come only while the loop is
--   parked, which the source asks of its callers.
-- - A run of runtime_generate meets what is outside of it as a record: the tokens that each step samples, and
--   which steps' calls succeed. Its loop runs over the max_new - 1 steps that are planned.
-- - The flags of the service are Booleans, a float is its 32 bits, a pointer is a number with 0 for null.
--
-- Not modelled: the hasher of the hash map; the stream argument; the text of the messages; allocation failures
-- of the standard library; of the decode service the uploads of columns, temperatures and seeds and the
-- diagnostics of the watchdog; of runtime_generate the timing and the progress reports; the JIT handles of
-- src/decode/runtime.cu; of src/jit.cpp the calls of the operating system in run_argv and load_function; and
-- the rest of the repository: the other bindings (src/bindings/service.cpp, src/bindings/launch.cpp and the
-- registrations), the kernels (src/decode/megakernel.cuh), the profiler, the Python server, and the vendored
-- JSON library.
pub mod Common
pub mod Jit
pub mod Kv
pub mod Runtime
