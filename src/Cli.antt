-- ===== src/Cli.antt =====
-- The command line, iotit.go.
pub mod TailLog
pub mod Commands
pub mod Unprepared
