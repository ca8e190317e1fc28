-- ===== src/Jobs.antt =====
-- src/sir/jobs.py: results held for clients that poll.
pub mod Defs
pub mod Lease
pub mod Sweep
pub mod Create
pub mod Keys
pub mod Invariant
pub mod Life
