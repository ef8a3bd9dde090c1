-- ===== src/Runner.antt =====
-- agent/runner.py: `AgentRunner`. Config has the changes of the configuration that wait for a safe
-- point, Loop the run of the graph with the queued messages.
pub mod Config
pub mod Pending
pub mod Consistent
pub mod Rollback
pub mod Loop
pub mod Drain
pub mod Resume
pub mod Answers
