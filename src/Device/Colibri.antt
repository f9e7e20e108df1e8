-- ===== src/Device/Colibri.antt =====
-- device/colibri.go.
pub mod Defs
pub mod Board
pub mod Ends
pub mod Quiet
pub mod Cards
unfoldable pub use Defs.*
unfoldable pub use Board.*
