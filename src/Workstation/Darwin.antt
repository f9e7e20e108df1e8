-- ===== src/Workstation/Darwin.antt =====
-- workstation/w_darwin.go.
pub mod Disks
pub mod Write
pub mod Job
