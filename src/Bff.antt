-- ===== src/Bff.antt =====
-- The browser's session layer (internal/auth/bff).
pub mod State
pub mod Session
pub mod Csrf
pub mod Cookie
