-- ===== src/Installer/Storage.antt =====
-- `InstallerService::ValidateInstallStorageData` and its helpers
-- (src/services/installer/installer_service.cpp), one child for each part.
pub mod Sizes
pub mod Merge
pub mod Cursor
pub mod Operations
pub mod Conservation
pub mod Validate
pub mod Mounts
pub mod Safety
pub mod Accepts
