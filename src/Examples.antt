-- ===== src/Examples.antt =====
-- Concrete libraries and stores that meet the assumptions of the development, and its theorems at
-- concrete inputs.
pub mod Codec
pub mod Jwt
pub mod World
pub mod Sessions
pub mod Accounts
pub mod Records
pub mod Settings
pub mod Web
pub mod Data
pub mod Tables
pub mod Incidents
pub mod Startup
pub mod Health
