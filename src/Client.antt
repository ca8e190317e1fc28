-- ===== src/Client.antt =====
-- src/clients/python: the client for jobs.
pub mod Registry
pub mod Discovery
pub mod Polling
pub mod Run
pub mod Waits
pub mod Bounds
pub mod Resubmits
