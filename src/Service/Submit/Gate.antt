-- ===== src/Service/Submit/Gate.antt =====
-- internal/service/batch_service.go: the gate in front of the relayer.
use ganc_sys.Prelude.{
  ℕ, ◌≡◌, ◌⊎◌, inl, inr, Bool, true, List, arith, Error, Result, ok, err, Result-cases, Bool-cases,
  proof_verification_failed,
}
use ganc_sys.Text.{Text}
use ganc_sys.Types.{SettlementUpdate, BatchCommitments, ProofBundle}
use ganc_sys.Service.Guard.{
  SubmitBatchRequestBody, IsPinned, guard_proof_contract, guard_proof_contract_iff,
}
use ganc_sys.Batch.PublicInputs.Contract.{IsProvable, public_inputs_of}
use ganc_sys.Relayer.{SubmitBatchResult}
use ganc_sys.Service.Submit.{
  BatchService, check_proof, submit_batch, rollback_state_to_baseline, rolled_back,
}

module _ (verify : SettlementUpdate → BatchCommitments → ProofBundle → Bool)
    (submit : SubmitBatchRequestBody → Result SubmitBatchResult) where
  -- A submission that the guard, the verifier and the relayer let through.
  pub record IsCleared (req : SubmitBatchRequestBody) (s : BatchService) : Type 0 where
    pub pinned : IsPinned s.expected_verification_key_id req.proof_bundle
    pub provable : IsProvable req.settlement_update req.batch_commitments
    pub bound :
        req.proof_bundle.public_inputs
        ≡ public_inputs_of req.settlement_update req.batch_commitments
    pub verified : verify req.settlement_update req.batch_commitments req.proof_bundle ≡ true
    pub result : SubmitBatchResult
    pub relayed : submit req ≡ ok result

  -- The service after a refusal: an error, and only the manager is rolled back.
  pub record IsRefused (sha256 : Text → List ℕ) (req : SubmitBatchRequestBody) (s : BatchService)
      : Type 0 where
    pub error : Error
    pub outcome : submit_batch sha256 verify submit req s ≡ (
      err error,
      record s { state_rollback = rolled_back sha256 s.committed_snapshot s.state_rollback },
    )

  -- With a verifier set, either a submission has passed the guard, the verifier and the relayer, or
  -- SubmitBatch returns an error and nothing of the service changes but the off-chain manager,
  -- which is rolled back to the baseline: no result is saved and no batch is committed or failed.
  pub submit_batch_gate :
      (sha256 : Text → List ℕ) (req : SubmitBatchRequestBody) (s : BatchService)
      → s.has_verifier ≡ true
      → IsCleared req s ⊎ IsRefused sha256 req s
  unfolding submit_batch check_proof rollback_state_to_baseline
  submit_batch_gate sha256 req s h =
      let pin = s.expected_verification_key_id in
      elim (Result-cases (guard_proof_contract pin req)) [
        | inr (e, bad) ↦ inr (record { error = e; outcome = ground arith })
        | inl (u, good) ↦
            elim (Bool-cases
              (verify req.settlement_update req.batch_commitments req.proof_bundle)) [
                | inr bad ↦
                    inr (record { error = proof_verification_failed; outcome = ground arith })
                | inl verified ↦ elim (Result-cases (submit req)) [
                  | inr (e, bad) ↦ inr (record { error = e; outcome = ground arith })
                  | inl (result, relayed) ↦
                      let (p, q, b) = (guard_proof_contract_iff pin req).0 good in
                      inl (record {
                        pinned = p;
                        provable = q;
                        bound = b;
                        verified = verified;
                        result = result;
                        relayed = relayed;
                      })
                ]
              ]
      ]
