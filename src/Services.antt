-- ===== src/Services.antt =====
-- src/services/service.h, src/services/service.cpp and src/event.h: what holds the services of the
-- daemon and connects them.
pub mod Event
pub mod Manager
mod Tests
