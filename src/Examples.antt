-- ===== src/Examples.antt =====
-- Concrete runs of the code, and the theorems at concrete data.
mod Control
mod Cli
mod Session
mod Runtime
mod Subagents
mod Lifecycle
mod Runner
mod Bridge
mod Sandbox
