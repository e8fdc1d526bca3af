-- ===== src/Sh.antt =====
-- userspace/apps/sh: the shell.
pub mod Alias
pub mod Cwd
pub mod Path
pub mod Suggest
pub mod Line
pub mod History
pub mod Browse
pub mod Search
pub mod Prompt
