-- ===== src/Service.antt =====
-- control-plane/internal/service: the session manager over its ports.
pub mod Ports
pub mod Slots
pub mod Helpers
pub mod Create
pub mod Transactions
pub mod Freeze
pub mod Recovery
pub mod Snapshot
pub mod Restore
pub mod Access
pub mod Terminate
pub mod Reaper
pub mod Observed
pub mod Commit
pub mod Reclaim
mod FreezeSafety
mod Tests
mod Refs
mod Sweep
mod Rounds
mod Passive
mod Frozen
mod Deletion
mod Cleaned
mod Unstarted
mod Cleanup
