-- ===== src/Engine.antt =====
-- src/sir/engine.py: the mechanism that carries out what the policy decided.
pub mod Defs
pub mod Serve
pub mod Estimate
pub mod Loop
pub mod Switch
pub mod Control
pub mod Steps
pub mod Coherence
pub mod Batches
pub mod Rounds
pub mod Invariant
pub mod Staffing
pub mod Progress
pub mod Resume
pub mod Terminators
pub mod Keeps
pub mod Shutdown
pub mod Closing
pub mod Halting
pub mod Down
pub mod Intake
pub mod Capacity
pub mod Residency
pub mod Crash
