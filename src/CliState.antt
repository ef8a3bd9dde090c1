-- ===== src/CliState.antt =====
-- agent/cli/state.py: what the terminal shows of a conversation, driven by run events.
pub mod Blocks
pub mod Cards
pub mod Streaming
pub mod Settling
pub mod Apply
pub mod Growth
pub mod Revisions
pub mod Ends
pub mod Restore
