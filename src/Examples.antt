-- ===== src/Examples.antt =====
-- Concrete inputs: the theorems' hypotheses can hold, and the definitions compute.
pub mod Data
pub mod Policies
pub mod Queueing
pub mod Jobs
pub mod Engines
pub mod Configs
pub mod Apis
pub mod Runs
pub mod Streams
pub mod Clients
