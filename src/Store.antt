-- ===== src/Store.antt =====
-- control-plane/internal/adapter/configmap/store.go: the session store on ConfigMaps and Leases.
pub mod Objects
pub mod Records
pub mod Leases
pub mod Stored
pub mod Swaps
pub mod Fences
pub mod Onward
mod Takeover
pub mod Port
mod World
mod Tests
