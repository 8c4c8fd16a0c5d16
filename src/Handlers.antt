-- ===== src/Handlers.antt =====
-- backend/internal/handlers.
pub mod Health
pub mod Router
pub mod Env
pub mod Cookies
pub mod Registration
pub mod Login
pub mod Refresh
