-- ===== src/Daemon.antt =====
-- nhop/src/daemon/: the staged run, the front ends, the IPC socket, the init script, the limit on
-- open files, and the task that owns the daemon's state.
pub mod Server
pub mod InitScript
pub mod OpenFiles
pub mod FailedCommand
pub mod Reply
pub mod Staging
pub mod Frontends
pub mod State
