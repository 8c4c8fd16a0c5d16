-- ===== src/Config.antt =====
-- backend/internal/config.
pub mod Types
pub mod Reader
pub mod Errors
pub mod Logging
pub mod DotEnv
pub mod Loading
pub mod Validating
pub mod Accepted
pub mod Reporting
