-- ===== src/Service.antt =====
-- internal/service: the orchestration of the settlement.
pub mod Ordering
pub mod WitnessAccounts
pub mod Settlement
pub mod Guard
pub mod PendingBatch
pub mod Rehydrate
pub mod Submit
pub mod Withdraw
pub mod Deposit
pub mod Proof
pub mod Building
