-- ===== src/Coproc/Ota.antt =====
-- The OTA transfer: coproc-core/src/coproc_ota.c. One transfer at a time goes from BEGIN over the
-- chunks of its image to FINALIZE and ACTIVATE, with the backend's answers in between.
pub mod Transfer
pub mod Requests
pub mod Stream
pub mod Complete
pub mod Moved
pub mod Flash
pub mod Sound
pub mod Steps
pub mod Busy
pub mod Arrive
