-- ===== src/Http.antt =====
-- src/http/headers.hpp: status codes, reason phrases and header lines.
pub mod Status
pub mod Phrase
pub mod Headers
