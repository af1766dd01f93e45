-- ===== src/Agent.antt =====
-- The data plane's agent (data-plane/cmd/agent): one process in the pod of each session.
pub mod Bytes
pub mod Scrollback
pub mod Stream
pub mod Workload
pub mod Machine
pub mod Redactor
pub mod Sink
pub mod Archive
mod Tests
