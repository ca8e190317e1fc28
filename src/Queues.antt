-- ===== src/Queues.antt =====
-- src/sir/queues.py: a FIFO of requests per model. A request is a shared object: the API and the job
-- store cancel it while it waits, so queues hold references into a heap of requests.
pub mod Defs
pub mod View
pub mod Purge
pub mod Fresh
pub mod Popping
pub mod Position
pub mod Fifo
