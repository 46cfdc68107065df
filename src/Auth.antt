-- ===== src/Auth.antt =====
-- internal/auth: tokens and their purposes, and time-based one-time passwords.
pub mod Tokens
pub mod Passwords
pub mod Totp
