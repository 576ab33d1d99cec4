-- ===== src/Service.antt =====
-- internal/service: tasks, executions, the task acquirer and the runner.
pub mod Task
pub mod Execution
pub mod Runner
