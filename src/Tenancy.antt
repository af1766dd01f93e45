-- ===== src/Tenancy.antt =====
-- control-plane/internal/tenancy: which tenant a request speaks for.
pub mod Callers
pub mod Resolver
pub mod Parse
mod Claims
mod Proven
mod Tests
