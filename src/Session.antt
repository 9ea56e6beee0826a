-- ===== src/Session.antt =====
-- src/qmt_execution_core/session.py: the session that carries one execution at a time.
pub mod State
pub mod Report
pub mod Observe
pub mod Submit
pub mod Life
pub mod Stable
pub mod Durable
pub mod Sending
pub mod Calls
pub mod Examples
