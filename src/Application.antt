-- ===== src/Application.antt =====
-- `Application` (src/application.h and src/application.cpp): the main loop of the daemon.
pub mod Lifecycle
pub mod Messages
mod Tests
