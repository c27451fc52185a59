-- ===== src/Auth.antt =====
-- src/auth: accounts, roles and permissions, and refresh tokens.
pub mod Model
pub mod Service
pub mod Tokens
mod Tests
