-- ===== src/Msi/Replies.antt =====
-- `DramDirectoryCntlr`
-- (core/memory_subsystem/pr_l1_pr_l2_dram_directory_msi/dram_directory_cntlr.cc): the replies of the caches and of
-- DRAM, and the two handlers of messages. `fuel` is that of the requests that a message lets go on.
mod Invalidations
mod Flushes
mod Handlers
unfoldable pub use Invalidations.*
unfoldable pub use Flushes.*
unfoldable pub use Handlers.*
