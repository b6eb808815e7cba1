-- ===== src/Lib.antt =====
-- The common library of the Sniper multi-core simulator: its caches, its directory entries and the
-- controller of the DRAM directory, its synchronization server, the barrier between the cores, and the
-- containers and contention models of its performance model.
--
-- Parts, files and the code that they stand for:
-- Cache: core/memory_subsystem/cache. Cache/Block is a line (cache_block_info, cache_state);
--   Cache/Address the geometry, the hashes and the homes (cache_base, address_home_lookup,
--   misc/utils.cc floorLog2, misc/rng.h); Cache/Policy has a module for each cache_set_<policy>.cc,
--   each with the state that the subclass of CacheSet adds, its getReplacementIndex and its
--   updateReplacementIndex; Cache/Set is CacheSet (find, insert, invalidate, read_line, write_line);
--   Cache/Store is Cache (peekSingleLine, accessSingleLine, insertSingleLine, invalidateSingleLine
--   and the counters). A Cache finds the set of an address by Cache/Address, the set chooses a line
--   by its policy, and the policy reads the lines of the set and the record that the sets share.
-- Sync: system/sync_server. Sync/Mutex, Sync/Barrier and Sync/Server are SimMutex, SimBarrier, and
--   SimCond with the calls of SyncServer. What they ask of system/thread_manager is a list of events
--   (Sync/Event); the maps of the server are Sync/Table. A waiter on a condition names its mutex by
--   its address, as m_mutex does, so that one mutex is shared by all its users.
-- Perf: misc/circular_queue.h (Perf/CircularQueue); performance_model/contention_model with
--   queue_model_contention and queue_model_basic (Perf/Contention).
-- Directory: the entries of core/memory_subsystem/directory_schemes. Directory/Entry is what both
--   schemes share (directory_entry.h), Directory/Limited and Directory/Limitless are the two schemes.
-- Msi: core/memory_subsystem/pr_l1_pr_l2_dram_directory_msi. Msi/Message is ShmemMsg and ShmemReq;
--   Msi/Slots the directory cache (dram_directory_cache) over entries of any scheme (directory.cc);
--   Msi/State the state of DramDirectoryCntlr and its queues of requests (req_queue_list_template.h);
--   Msi/Requests the process*Req* functions, processNullifyReq, the allocation of an entry and
--   retrieveDataAndSendToL2Cache; Msi/Replies the process*Rep* functions, processDRAMReply and the
--   two handlers. What they send is a list of messages; MemoryManager is seen as the sequence of
--   messages that it dispatches (run). A call ends in a value, an abort of the simulator or fuel spent
--   (Run). Msi/Coherent says what an entry may hold in each state; Msi/Kept follows the calls, a
--   file for each group of functions, and shows what they keep; Msi/Runs and Msi/Holders are
--   about whole runs, Msi/Lookup, Msi/Given and Msi/Transactions about one request from its
--   arrival to its answer, Msi/Errors about messages that stop the simulator.
-- Clock: system/barrier_sync_server. Clock/Barrier (State, Waiting, Rounds and
--   Calls) is BarrierSyncServer, whose calls end as those of
--   the directory controller do (Run); a core is one record of what the vectors of the server have for it. What the
--   thread manager, the core manager, the hooks and random_shuffle answer is the record World, and
--   a wait on a condition variable is the answer that the caller waits. Clock/Held, Clock/Reached, Clock/Release,
--   Clock/Arrival and Clock/Departure are about isBarrierReached, barrierRelease, synchronize and releaseThread.
-- Tests: concrete caches, sets, servers and queues to which the theorems are applied.
-- Base: lists, tests, counted loops and bit operations on the native numbers.
--
-- Conventions. `none` of an Option is a failed assertion, a fatal log message, a division by zero, a
-- read out of bounds, or fuel spent; each definition says which. Words keep their wrap-around as
-- `% u8`, `% u32` and `% u64`. A loop `for (i = 0; i < n; i++)` is a recursion on the number of
-- steps left, so it needs no fuel. Fuel is taken by the recursion of the round-robin policy, where
-- as many calls as there are ways are enough if a line may be replaced, and by that of the random
-- policy, where one more than the number of failing draws is enough; and by processNextReqFromL2Cache,
-- which calls itself through the functions of the requests, where the length of the queue of the
-- address is enough; and by the loop of barrierRelease, where the number of intervals until a
-- core that is held is before the time of the barrier is enough. Locks are left out: every
-- operation runs under the lock of its object.
--
-- Not modelled: the fault injector (a set keeps the bytes that it allocates for one), statistics registration, the conversion between cycles and time,
-- the NUCA cache (the directory controller is the one that has none), the
-- cache controllers, the DRAM controller, times and performance records of messages, the network, the core models, scheduling and
-- thread management, printState of the barrier, configuration, scripting, tracing and the user API. A cache controller is a
-- function that says whether a line is in a lower-level cache.
pub mod Base
pub mod Cache
pub mod Clock
pub mod Directory
pub mod Msi
pub mod Perf
pub mod Run
pub mod Sync
pub mod Tests
