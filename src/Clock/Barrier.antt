-- ===== src/Clock/Barrier.antt =====
-- `BarrierSyncServer` (system/barrier_sync_server.{h,cc}). Condition variables and the performance models of the
-- cores are what is sent to them; the other managers of the simulator are what they answer during a call.
mod State
mod Waiting
mod Rounds
mod Calls
unfoldable pub use State.*
unfoldable pub use Waiting.*
unfoldable pub use Rounds.*
unfoldable pub use Calls.*
