-- ===== src/Msi/Kept.antt =====
-- What the functions of
-- core/memory_subsystem/pr_l1_pr_l2_dram_directory_msi/dram_directory_cntlr.cc keep.
pub mod Cache
pub mod Account
pub mod Queues
pub mod Serving
pub mod Allocation
pub mod Requests
pub mod Upgrade
pub mod Next
pub mod Replies
pub mod Flushes
pub mod Handlers
