-- ===== src/Clock.antt =====
-- The barrier that keeps the clocks of the cores together: system/barrier_sync_server.
pub mod Barrier
pub mod Reached
pub mod Held
pub mod Release
pub mod Arrival
pub mod Departure
