-- ===== src/Models.antt =====
-- backend/internal/models: the domain types, their enumerations and their validation.
pub mod Enum
pub mod Issues
pub mod Email
pub mod Sort
pub mod Identity
pub mod Incident
pub mod Event
pub mod Analysis
pub mod Simulation
pub mod Postmortem
pub mod Validity
