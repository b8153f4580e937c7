-- ===== src/Encryption.antt =====
-- The package extensions/encryption: encrypted arguments, state and events.
pub mod Padding
pub mod Aes
pub mod Codec
pub mod Middleware
pub mod Invoke
