-- ===== src/Session.antt =====
-- control-plane/internal/session: the domain model of a session.
pub mod Errors
pub mod Types
pub mod Models
pub mod Plugins
pub mod Catalog
pub mod Record
pub mod Idempotence
pub mod Selection
pub mod Mirrors
mod Tests
