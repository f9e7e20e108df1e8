-- ===== src/Vbox.antt =====
-- vbox: the virtual machine in which images are prepared.
mod Defs
pub mod Settings
pub mod Machines
pub mod Update
pub mod Check
pub mod Stopping
pub mod Json
pub mod Saved
pub mod Upgrade
pub mod Unchanged
unfoldable pub use Defs.*
