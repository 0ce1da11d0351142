-- ===== src/Api.antt =====
-- The HTTP surface (internal/api): the middlewares, the guard, the redaction and the handlers.
pub mod Limits
pub mod Redact
pub mod Guard
pub mod HumaAuth
pub mod Admin
pub mod Profile
pub mod Specimens
pub mod Moderation
