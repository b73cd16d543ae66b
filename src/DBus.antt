-- ===== src/DBus.antt =====
-- src/core/entity/dbus_query.hpp and dbus_query.cpp: the instances that D-Bus objects give, and the
-- queries that ask for them.
pub mod Values
pub mod Members
pub mod Instance
pub mod Supply
pub mod Query
pub mod Watch
