-- ===== src/Runner.antt =====
-- src/session_runner.rs: the task that processes one session.
pub mod Reorder
pub mod Wire
pub mod Requests
pub mod Succeeds
pub mod Outputs
pub mod Streaming
pub mod OneShot
