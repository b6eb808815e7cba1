-- ===== src/Msi/Requests.antt =====
-- `DramDirectoryCntlr`
-- (core/memory_subsystem/pr_l1_pr_l2_dram_directory_msi/dram_directory_cntlr.cc), the requests: how the one at
-- the front of a queue is processed. The functions call each other through `processNextReqFromL2Cache`, here
-- the argument `next`; `process_next` ties the knot on fuel.
mod Entries
mod Retrieval
mod Misses
mod Upgrade
mod Dequeue
unfoldable pub use Entries.*
unfoldable pub use Retrieval.*
unfoldable pub use Misses.*
unfoldable pub use Upgrade.*
unfoldable pub use Dequeue.*
