-- ===== src/Middleware.antt =====
-- backend/internal/middleware.
pub mod Authenticate
pub mod Recorder
pub mod Cors
pub mod Recovery
pub mod RequestId
