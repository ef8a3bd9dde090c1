-- ===== src/SessionRuntime.antt =====
-- agent/session_runtime.py: which thread a runner owns, and what a thread is restored with.
pub mod Leases
pub mod Restore
