-- ===== src/Tests.antt =====
-- The theorems of the components, applied to concrete caches, servers and queues.
mod Lines
mod Policies
mod Sync
mod Perf
mod Directory
mod Msi
mod Clock
