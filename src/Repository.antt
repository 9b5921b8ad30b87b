-- ===== src/Repository.antt =====
-- internal/repository: the durable store of the settlement subsystem.
pub mod Sql
pub mod Settlement
pub mod Backend
pub mod Withdraw
pub mod Records
pub mod Batch
pub mod Deposit
pub mod Proof
pub mod Dashboard
