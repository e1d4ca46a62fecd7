-- ===== src/Support.antt =====
-- The helpers of support/ that have data of their own.
pub mod Int4
pub mod Shell
pub mod Disk
pub mod Cache
