-- ===== src/Device/Raspi.antt =====
-- device/rasppi.go: the callbacks and the Configure of a Raspberry Pi.
mod Callbacks
mod Configure
unfoldable pub use Callbacks.*
unfoldable pub use Configure.*
