-- ===== src/Policy.antt =====
-- src/sir/policy.py: which model gets the GPU. `Defs` has the code; the other children prove what
-- the module promises of it.
pub mod Defs
pub mod Lemmas
pub mod Estimate
pub mod Score
pub mod Winner
pub mod Idle
pub mod Incumbent
pub mod Targets
pub mod Starvation
