-- ===== src/Coordination.antt =====
-- src/qmt_execution_core/coordination.py: the coordinator that shares an account's symbols and cash
-- between processes.
pub mod Tables
pub mod Transactions
pub mod Ops
pub mod Estimates
pub mod Examples
