-- ===== src/Helpers.antt =====
-- src/core/helpers/: text comparison, decoding and encoding.
pub mod Compare
pub mod Base64
pub mod Text
