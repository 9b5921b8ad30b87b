-- ===== src/Repository/Backend.antt =====
-- What the repositories of internal/repository share: the memory store, and the tables of
-- migrations/001_init.sql and 002_withdraw_request_sequence.sql that they write. The rows stand in the
-- order of `created_at`; the time columns are left out.
use ganc_sys.Prelude.{
  ℕ, ◌+◌, ◌^◌, Bool, not, List, [], ◌∷◌, ok, err, Exec, other_failure, panicked, ltb, ◌==◌,
  if◌then◌else◌, Option, none, some,
}
use ganc_sys.Prelude.Effects.{◌>>=◌, ◌>>◌, gets, modify, raise_if, pure}
use ganc_sys.Text.{Text, text_eq}
use ganc_sys.Types.{WithdrawRequest, WithdrawRecord, SettlementUpdate, BatchCommitments, Witness}
use ganc_sys.Store.{MemoryStore}

-- A row of indexed_withdraw_records; a hash that is NULL is the empty text.
pub record WithdrawRecordRow : Type 0 where
  pub entry : WithdrawRecord
  pub tx_hash : Text

-- A row of batch_builds. The JSONB columns hold what was marshalled into them.
pub record BatchBuildRow : Type 0 where
  pub batch_id : Text
  pub old_state_root : Text
  pub new_state_root : Text
  pub settlement_update : SettlementUpdate
  pub batch_commitments : BatchCommitments
  pub witness : Witness
  pub status : Text

-- A row of submit_batches
pub record SubmitBatchRow : Type 0 where
  pub batch_id : Text
  pub tx_hash : Text
  pub accepted : Bool
  pub proof_status : Text

-- A row of proof_bundles
pub record ProofBundleRow : Type 0 where
  pub batch_id : Text
  pub proof : Text
  pub public_inputs : List Text
  pub verification_key_id : Text
  pub status : Text

-- `request_seq` is what withdraw_request_seq gives next.
pub record Backend : Type 0 where
  pub store : MemoryStore
  pub requests : List WithdrawRequest
  pub records : List WithdrawRecordRow
  pub builds : List BatchBuildRow
  pub submits : List SubmitBatchRow
  pub proofs : List ProofBundleRow
  pub request_seq : ℕ

module _ {A : Type 0} where
  -- The first row with the key: `QueryRow(…).Scan(…)`, where `pgx.ErrNoRows` is `none`.
  unfoldable pub find_row : (A → Text) → Text → List A → Option A
  find_row key id [] = none
  find_row key id (r ∷ rows) =
      let rest = find_row key id rows in if key r == id then some r else rest

  -- `if err != nil { panic(…) }`
  abbrev pub or_panic : Exec Backend A → Exec Backend A
  or_panic m b =
      let (answer, b') = m b in elim answer [ ok a ↦ (ok a, b') | err _ ↦ (err panicked, b') ]

-- `SELECT nextval('withdraw_request_seq')`, a bigint
unfoldable pub next_value : Exec Backend ℕ
next_value = do
  seq ← gets (λ b. b.request_seq)
  raise_if (not (ltb seq (2 ^ 63))) other_failure
  modify (λ b. record b { request_seq = b.request_seq + 1 })
  pure seq
