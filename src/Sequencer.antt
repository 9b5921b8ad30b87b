-- ===== src/Sequencer.antt =====
-- internal/sequencer/settlement_sequencer.go: one pass of the operator.
-- The drivers are an interface over a state that they share; log lines are left out.
pub mod Drain
use ganc_sys.Prelude.{
  Bool, true, false, Error, Result, ok, err, Exec, no_pending_settlement_operations,
}
use ganc_sys.Text.{Text, codes}
use ganc_sys.Types.{ProofBundle}
use ganc_sys.Batch.Apply.{BuildOutput}
use ganc_sys.Service.Guard.{SubmitBatchRequestBody}
use ganc_sys.Service.Submit.{SubmitBatchResponse}

-- `BatchDriver`, `ProofDriver` and `RecoveryDriver`, on a state W.
pub record Drivers (W : Type 0) : Type 1 where
  pub build_batch : Exec W BuildOutput
  pub generate_proof : BuildOutput → Exec W ProofBundle
  pub submit_batch : SubmitBatchRequestBody → Exec W SubmitBatchResponse
  pub cancel_included_batch : Text → Text → Exec W (Unit {0})

-- What `SettleOnce` answers: (false, nil), (true, nil) or (false, err) with the stage.
pub data Stage : Type 0 where
  build prove submit not_accepted : Stage

pub data Settled : Type 0 where
  idle settled : Settled
  failed : Stage → Settled

abbrev is_nothing_pending : Error → Bool
is_nothing_pending no_pending_settlement_operations = true
is_nothing_pending _ = false

module _ {W : Type 0} (drivers : Drivers W) (has_recovery : Bool) where
  -- `reopen`; its error is logged and dropped
  unfoldable pub reopen : Text → Text → W → W
  reopen batch_id reason w = elim has_recovery [
    | true ↦ (drivers.cancel_included_batch batch_id reason w).1
    | false ↦ w
  ]

  abbrev pub submission_of : BuildOutput → ProofBundle → SubmitBatchRequestBody
  submission_of out bundle = record {
    settlement_update = out.settlement_update;
    batch_commitments = out.batch_commitments;
    proof_bundle = bundle;
  }

  -- The end of a pass, from the answer of `SubmitBatch`.
  unfoldable pub finish_submit : Text → Result SubmitBatchResponse × W → Settled × W
  finish_submit batch_id (err e, w) =
      (failed Stage.submit, reopen batch_id (codes "submit failed") w)
  finish_submit batch_id (ok response, w) = elim (response.accepted) [
    | true ↦ (settled, w)
    | false ↦ (failed Stage.not_accepted, reopen batch_id (codes "submit not accepted") w)
  ]

  -- The rest of a pass, from the answer of `GenerateProof`.
  unfoldable pub finish_prove : BuildOutput → Result ProofBundle × W → Settled × W
  finish_prove out (err e, w) =
      (failed Stage.prove, reopen out.settlement_update.batch_id (codes "prove failed") w)
  finish_prove out (ok bundle, w) =
      finish_submit out.settlement_update.batch_id
        (drivers.submit_batch (submission_of out bundle) w)

  unfoldable pub finish_build : Result BuildOutput × W → Settled × W
  finish_build (err e, w) = elim (is_nothing_pending e) [
    | true ↦ (idle, w)
    | false ↦ (failed Stage.build, w)
  ]
  finish_build (ok out, w) = finish_prove out (drivers.generate_proof out w)

  -- `SettleOnce`
  unfoldable pub settle_once : W → Settled × W
  settle_once w = finish_build (drivers.build_batch w)
