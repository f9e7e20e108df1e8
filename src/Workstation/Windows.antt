-- ===== src/Workstation/Windows.antt =====
-- workstation/w_windows.go.
pub mod Disks
pub mod Clean
pub mod Write
pub mod Job
pub mod Kept
