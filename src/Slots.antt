-- ===== src/Slots.antt =====
-- control-plane/internal/adapter/k8s/auth_pool.go: the pool of login slots on Leases and claims.
pub mod Leases
pub mod Pool
pub mod Acquire
mod Reclaim
mod Won
mod Granting
mod Grants
mod Tests
