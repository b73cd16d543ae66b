-- ===== src/Service/Session.antt =====
-- src/service/session.hpp: user sessions, the enabled authentication methods and the session store.
-- Times are readings of the steady clock in nanoseconds, one argument for each call of `now()`.
pub mod User
pub mod Methods
pub mod Store
pub mod Tokens
pub mod Timeouts
pub mod Again
pub mod Login
pub mod Stems
