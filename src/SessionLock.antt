-- ===== src/SessionLock.antt =====
-- agent/session_lock.py: which lease owns a thread.
pub mod InProcess
pub mod Exclusive
pub mod Threads
pub mod Owners
pub mod Refinement
