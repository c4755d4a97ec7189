-- ===== src/Power.antt =====
-- The power manager service (src/services/power_manager/): the batteries, and the calls that turn the
-- machine off.
pub mod Devices
pub mod Removed
mod Tests
