-- ===== src/Types.antt =====
-- src/sir/types.py: the vocabulary that the queues, the policy, the engine and the API share.
pub mod Request
pub mod Scheduling
