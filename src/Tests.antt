-- ===== src/Tests.antt =====
-- Concrete states, and the theorems at them.
mod Data
mod Disk
mod Exec
mod Files
mod Locks
mod Meta
mod Paths
mod Table
