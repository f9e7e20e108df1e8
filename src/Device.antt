-- ===== src/Device.antt =====
-- device: the flashers.
pub mod Flasher
pub mod Images
pub mod Prepare
pub mod Mount
pub mod Unmount
pub mod Raspi
pub mod Sd
pub mod Card
pub mod Select
pub mod Listing
pub mod Uploads
pub mod Verified
pub mod Answers
pub mod Waiting
pub mod Downloads
pub mod Done
pub mod Colibri
pub mod Esp
pub mod Edison
pub mod Beagle
