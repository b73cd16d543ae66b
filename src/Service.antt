-- ===== src/Service.antt =====
-- src/service/: sessions, authorization and the configuration file.
pub mod Json
pub mod Session
pub mod Authorization
pub mod Configuration
