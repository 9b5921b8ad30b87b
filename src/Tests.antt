-- ===== src/Tests.antt =====
-- Concrete runs of the program, and the theorems applied to them.
mod Data
mod State
mod Batch
mod Service
mod Flow
mod Store
mod Withdraw
mod Chain
mod Drain
