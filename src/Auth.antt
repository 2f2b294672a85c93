-- ===== src/Auth.antt =====
-- Sign-in (auth): the limit on failed attempts, the codes, and the service.
pub mod Limiter
pub mod Exec
pub mod Totp
pub mod Accounts
pub mod Service
mod Tests
