-- ===== src/Tests.antt =====
-- Concrete settings, and runs of the code in them.
mod Settings
mod Cards
mod Dialogs
mod Devices
mod Texts
mod World
mod Boards
mod Disks
mod Windows
