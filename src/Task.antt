-- ===== src/Task.antt =====
-- kernel/src/task: pipes, open files, and the scheduler.
pub mod Pipe
pub mod Fd
pub mod Sched
