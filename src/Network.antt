-- ===== src/Network.antt =====
-- The network manager service (src/services/network_manager/): its devices, their connections and
-- access points, and the requests for a Wi-Fi connection.
pub mod Maps
pub mod Data
pub mod Texts
pub mod AccessPoints
pub mod Pending
pub mod Devices
pub mod Wifi
pub mod History
pub mod Results
pub mod Numbers
pub mod Answers
pub mod Handlers
pub mod Callbacks
pub mod Once
pub mod Mirror
pub mod Shown
pub mod Kept
pub mod Followed
pub mod Stale
mod Tests
