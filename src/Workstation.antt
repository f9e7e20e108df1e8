-- ===== src/Workstation.antt =====
-- workstation: the computer that writes the card.
mod Defs
pub mod Linux
pub mod Darwin
pub mod Windows
unfoldable pub use Defs.*
