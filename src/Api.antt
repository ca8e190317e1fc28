-- ===== src/Api.antt =====
-- src/sir/api.py: the endpoints as far as they decide something. HTTP itself is not modelled.
pub mod Document
pub mod Sse
pub mod Collect
pub mod Renderings
pub mod Flow
pub mod Lease
pub mod Resubmission
