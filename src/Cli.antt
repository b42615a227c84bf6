-- ===== src/Cli.antt =====
-- nhop/src/cli/: the subcommands, what they ask the daemon, and what they print of its answers.
pub mod Explain
pub mod Status
pub mod SystemProxy
pub mod Printer
pub mod Exit
pub mod Doctor
pub mod StatusView
pub mod Client
pub mod Arguments
pub mod Answer
pub mod Names
pub mod Render
pub mod Logs
pub mod Tail
pub mod Run
pub mod Dispatch
