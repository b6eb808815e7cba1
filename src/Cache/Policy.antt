-- ===== src/Cache/Policy.antt =====
-- The replacement policies, a module for each class of core/memory_subsystem/cache/cache_set_*.cc.
pub mod Recency
pub mod Pointer
pub mod SetInfo
pub mod Lru
pub mod Mru
pub mod Nmru
pub mod Nru
pub mod Plru
pub mod Srrip
pub mod RoundRobin
pub mod Random
