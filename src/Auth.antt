-- ===== src/Auth.antt =====
-- internal/auth: the login rate limiter, the second factor, and the password store.
pub mod Limiter
pub mod Totp
