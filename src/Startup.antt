-- ===== src/Startup.antt =====
-- The start of the program: the waiting and connecting of backend/internal/db and backend/internal/queue,
-- backend/internal/server, and backend/cmd/server/main.go, which composes them.
pub mod Waiting
pub mod Connecting
pub mod Pool
pub mod Serving
pub mod Running
