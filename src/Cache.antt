-- ===== src/Cache.antt =====
-- The cache model of core/memory_subsystem/cache: blocks, sets, replacement policies, whole caches.
pub mod Block
pub mod Address
pub mod Policy
pub mod Set
pub mod Store
