-- ===== src/Drivers.antt =====
-- src/services/driver_manager/: the drivers that are installed when the hardware has changed.
pub mod Data
pub mod Install
pub mod Orderly
pub mod Success
pub mod Worker
pub mod Fingerprint
pub mod Remembered
mod Tests
