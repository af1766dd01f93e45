-- ===== src/RepoAccess.antt =====
-- control-plane/internal/repoaccess/store.go and control-plane/internal/helperauth/helperauth.go: the list of
-- repositories that sessions may clone, the requests to extend it, and who may ask.
pub mod Names
pub mod Store
pub mod History
pub mod Helpers
mod Tests
