-- ===== src/Bridge.antt =====
-- agent/llm_stream.py: the stream of a model, which one thread reads and any thread cancels.
pub mod State
pub mod Steps
pub mod Slots
pub mod Bounded
pub mod Awake
pub mod Ordered
pub mod Complete
pub mod Deadlock
