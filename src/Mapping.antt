-- ===== src/Mapping.antt =====
-- repo/mapping.go: the devices and images that mapping.json lists.
mod Defs
mod Lookup
pub mod Fill
pub mod Find
pub mod Failure
pub mod Updates
unfoldable pub use Defs.*
unfoldable pub use Lookup.*
