-- ===== src/Batch.antt =====
-- internal/batch: the artifacts of a settlement batch.
pub mod Settlement
pub mod Commitments
pub mod PublicInputs
pub mod Witness
pub mod Apply
pub mod LocalBuilder
pub mod SnapshotBuilder
