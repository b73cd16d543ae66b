-- ===== src/System.antt =====
-- src/definitions.hpp, system_queries.hpp and .cpp, version_provider.hpp, status_provider.hpp,
-- relation_provider.hpp, and `initEntityMap` of src/core/application.cpp: what the program knows of
-- the objects of the system.
pub mod Definitions
pub mod Queries
pub mod Links
pub mod Setup
pub mod Application
pub mod Served
