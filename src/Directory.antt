-- ===== src/Directory.antt =====
-- The entries of a cache directory: core/memory_subsystem/directory_schemes.
pub mod Entry
pub mod Sharers
pub mod Limited
pub mod Limitless
