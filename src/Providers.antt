-- ===== src/Providers.antt =====
-- What the providers of entities compute.
pub mod Status
