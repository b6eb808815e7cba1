-- ===== src/Msi.antt =====
-- The DRAM directory controller of core/memory_subsystem/pr_l1_pr_l2_dram_directory_msi, over the directory
-- entries of core/memory_subsystem/directory_schemes.
pub mod Message
pub mod Slots
pub mod State
pub mod Requests
pub mod Replies
pub mod Coherent
pub mod Kept
pub mod Runs
pub mod Holders
pub mod Lookup
pub mod Given
pub mod Transactions
pub mod Errors
