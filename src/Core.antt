-- ===== src/Core.antt =====
-- What every part of backend/ shares: settings, exceptions and text.
pub mod Text
pub mod Exceptions
pub mod Config
pub mod Json
