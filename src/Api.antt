-- ===== src/Api.antt =====
-- backend/internal/api: request ids and identities, request bodies, and response shapes.
pub mod Ids
pub mod Payload
pub mod Respond
pub mod Decode
