-- ===== src/Auth.antt =====
-- backend/internal/auth: password hashing and tokens.
pub mod Password
pub mod Tokens
