-- ===== src/Security.antt =====
-- core/security.
pub mod Crypto
pub mod Turnstile
pub mod Pii
pub mod Google
