-- ===== src/Ops.antt =====
-- ops-agent/src, the small service that looks at and restarts containers, and its client in
-- backend/src/ops.
pub mod Whitelist
pub mod Frames
pub mod Docker
pub mod Agent
pub mod Client
