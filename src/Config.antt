-- ===== src/Config.antt =====
-- device/config: the configurator, its storage and its default callbacks.
pub mod Storage
pub mod Interfaces
pub mod Dialogs
pub mod Save
pub mod Configurator
pub mod Setup
pub mod Address
pub mod Declined
pub mod Wifi
pub mod Panics
pub mod Client
