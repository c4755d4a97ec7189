-- ===== src/Installer.antt =====
-- src/services/installer/: the installer service of the live system.
pub mod Data
pub mod Exception
pub mod Storage
pub mod Names
pub mod Plan
pub mod Request
pub mod Controller
pub mod Steps
pub mod Partitioning
mod Tests
