-- ===== src/Config.antt =====
-- src/sir/config.py: the validated configuration.
pub mod Scheduler
pub mod Models
pub mod App
pub mod Routing
