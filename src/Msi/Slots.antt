-- ===== src/Msi/Slots.antt =====
-- core/memory_subsystem/pr_l1_pr_l2_dram_directory_msi/dram_directory_cache.{h,cc}, and the entries that
-- core/memory_subsystem/directory_schemes/directory.{h,cc} makes for it. An entry that the source makes when it is
-- first read is made at once here; what is left out is the time of an access.
mod Scheme
mod Lookup
mod Replacement
unfoldable pub use Scheme.*
unfoldable pub use Lookup.*
unfoldable pub use Replacement.*
