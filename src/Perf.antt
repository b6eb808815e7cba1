-- ===== src/Perf.antt =====
-- The containers and models that the performance model is built on.
pub mod CircularQueue
pub mod Contention
