-- ===== src/Workstation/Linux.antt =====
-- workstation/w_linux.go.
pub mod Disks
pub mod Write
pub mod Copy
pub mod Formatting
pub mod Cleaning
pub mod Copying
pub mod Selection
pub mod Safety
pub mod Job
