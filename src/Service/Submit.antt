-- ===== src/Service/Submit.antt =====
-- internal/service/batch_service.go: `SubmitBatch` and the rollback baseline. The verifier and the
-- relayer are parameters; the batch repository, which mirrors what it is given, is the list of the
-- calls of `SaveBatchSubmitResult`.
pub mod Gate
use ganc_sys.Prelude.{
  Bool, true, false, ◌&&◌, ◌++◌, List, [], ◌∷◌, none, some, Option, ◌==◌, Result, ok, err, Exec,
  proof_verification_failed, if◌then◌else◌, ℕ,
}
use ganc_sys.Prelude.Effects.{pure, raise, modify, gets, ◌>>=◌, ◌>>◌}
use ganc_sys.Text.{Text, text_eq, codes}
use ganc_sys.Relayer.{SubmitBatchResult}
use ganc_sys.Types.{WithdrawRecord, SettlementUpdate, BatchCommitments, ProofBundle}
use ganc_sys.State.Manager.{OffchainStateManager, Snapshot, take_snapshot, rollback}
use ganc_sys.Service.Settlement.{OffchainSettlementService, commit_batch, fail_batch}
use ganc_sys.Service.Guard.{SubmitBatchRequestBody, guard_proof_contract}

abbrev pub batch_build_source_pending : Text
batch_build_source_pending = codes "pending"

-- The arguments of one call of `SaveBatchSubmitResult`.
pub record SavedSubmit : Type 0 where
  pub request : SubmitBatchRequestBody
  pub result : SubmitBatchResult

-- `has_verifier` is whether `proofVerifier` is not nil. `state_rollback` is the manager behind the
-- interface, if it is set, and `committed_snapshot` the baseline, if `hasBaseline`.
pub record BatchService : Type 0 where
  pub has_verifier : Bool
  pub expected_verification_key_id : Text
  pub state_rollback : Option OffchainStateManager
  pub committed_snapshot : Option Snapshot
  pub build_source : Text
  pub offchain_settlement : Option OffchainSettlementService
  pub saved : List SavedSubmit

-- `types.SubmitBatchResponse`, with the parts of its `State` that are computed.
pub record SubmitBatchResponse : Type 0 where
  pub tx_hash : Text
  pub accepted : Bool
  pub proof_status : Text
  pub settlement_update : SettlementUpdate
  pub batch_commitments : BatchCommitments
  pub withdraw_records : List WithdrawRecord
  pub current_state_root : Text

-- `SetStateRollback` with a manager
unfoldable pub set_state_rollback : OffchainStateManager → BatchService → BatchService
set_state_rollback m s = record s {
  state_rollback = some m;
  committed_snapshot = some (take_snapshot m);
}

-- `commitStateBaseline`
unfoldable pub commit_state_baseline : BatchService → BatchService
commit_state_baseline s = elim (s.state_rollback) [
  | none ↦ s
  | some m ↦ record s { committed_snapshot = some (take_snapshot m) }
]

-- The manager after `rollbackStateToBaseline`.
abbrev pub rolled_back :
    (Text → List ℕ) → Option Snapshot → Option OffchainStateManager → Option OffchainStateManager
rolled_back sha256 (some snap) (some m) = some (rollback sha256 snap m)
rolled_back sha256 none m = m
rolled_back sha256 (some snap) none = none

-- `rollbackStateToBaseline`
unfoldable pub rollback_state_to_baseline : (Text → List ℕ) → BatchService → BatchService
rollback_state_to_baseline sha256 s = record s {
  state_rollback = rolled_back sha256 s.committed_snapshot s.state_rollback;
}

-- `CommitBatch` or `FailBatch` of the settlement service, in the pending mode.
unfoldable pub settle_result :
    SubmitBatchRequestBody → SubmitBatchResult → Exec BatchService (Unit {0})
settle_result req result s = elim (s.offchain_settlement) [
  | none ↦ (ok tt, s)
  | some service ↦
      let (r, service') =
        (if result.accepted
          then commit_batch req.settlement_update.batch_id result.tx_hash
              req.settlement_update.new_state_root service
          else fail_batch req.settlement_update.batch_id result.proof_status service) in
      if s.build_source == batch_build_source_pending
      then (r, record s { offchain_settlement = some service' })
      else (ok tt, s)
]

module _ (sha256 : Text → List ℕ)
    (verify : SettlementUpdate → BatchCommitments → ProofBundle → Bool)
    (submit : SubmitBatchRequestBody → Result SubmitBatchResult) where
  -- The gate in front of the relayer: the guard, then the verifier.
  unfoldable pub check_proof : SubmitBatchRequestBody → BatchService → Result (Unit {0})
  check_proof req s =
      if s.has_verifier
      then elim (guard_proof_contract s.expected_verification_key_id req) [
        | err e ↦ err e
        | ok _ ↦
            if verify req.settlement_update req.batch_commitments req.proof_bundle
            then ok tt
            else err proof_verification_failed
      ]
      else ok tt

  -- What follows an answer of the relayer.
  unfoldable pub record_result :
      SubmitBatchRequestBody → SubmitBatchResult → Exec BatchService SubmitBatchResponse
  record_result req result = do
    modify (λ s.
        if result.accepted then commit_state_baseline s else rollback_state_to_baseline sha256 s)
    modify (λ s. record s { saved = s.saved ++ (record { request = req; result = result } ∷ []) })
    settle_result req result
    pure (record {
      tx_hash = result.tx_hash;
      accepted = result.accepted;
      proof_status = result.proof_status;
      settlement_update = req.settlement_update;
      batch_commitments = req.batch_commitments;
      withdraw_records = result.withdraw_records;
      current_state_root = req.settlement_update.new_state_root;
    })

  -- `SubmitBatch`
  unfoldable pub submit_batch : SubmitBatchRequestBody → Exec BatchService SubmitBatchResponse
  submit_batch req s = elim (check_proof req s) [
    | err e ↦ (err e, rollback_state_to_baseline sha256 s)
    | ok _ ↦ elim (submit req) [
      | err e ↦ (err e, rollback_state_to_baseline sha256 s)
      | ok result ↦ record_result req result s
    ]
  ]
