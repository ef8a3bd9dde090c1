-- ===== src/Sandbox.antt =====
-- agent/sandbox.py: the output of a command.
pub mod Output
pub mod Tail
pub mod Log
