-- ===== src/Sync.antt =====
-- The synchronization server of system/sync_server.{h,cc}: `SimMutex`, `SimCond`, `SimBarrier` and
-- the calls of `SyncServer`. Stalling and resuming a thread are the events that go to the thread manager.
pub mod Event
pub mod Mutex
pub mod Table
pub mod Barrier
pub mod Server
