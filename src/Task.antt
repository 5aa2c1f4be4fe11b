-- ===== src/Task.antt =====
-- Celery tasks that execute a job: what a task sees and changes, the agent calls it makes, the
-- locks it takes, the `job_run` steps, and how every such task ends its job.
pub mod Protocol
pub mod World
pub mod Agent
pub mod Run
pub mod Keeps
pub mod Ends
pub mod Rows
pub mod Saved
pub mod Locked
