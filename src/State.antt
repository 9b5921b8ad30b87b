-- ===== src/State.antt =====
-- internal/state: the off-chain mirror of accounts.
pub mod Account
pub mod Json
pub mod Root
pub mod Records
pub mod Local
pub mod Nullifier
pub mod Address
pub mod Request
pub mod Manager
