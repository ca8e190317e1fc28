-- ===== src/Backends.antt =====
-- src/sir/backends: the two kinds of backend.
pub mod Sse
pub mod Stream
pub mod Frames
pub mod Relay
pub mod Vllm
pub mod Polling
pub mod Startup
pub mod Mock
pub mod Injected
