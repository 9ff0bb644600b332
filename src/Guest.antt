-- ===== src/Guest.antt =====
-- The guest agent (cmd/fc-agent) that runs in a VM, and the host's client for it (pkg/agent).
pub mod Protocol
pub mod Agent
pub mod Client
