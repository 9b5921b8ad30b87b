-- ===== src/Tests/Drain.antt =====
-- A drain over drivers that have a number of batches to settle.
use ganc_sys.Prelude.{
  ℕ, zero, suc, Bool, true, [], Result, ok, err, no_pending_settlement_operations,
}
use ganc_sys.Text.{codes}
use ganc_sys.Types.{ProofBundle}
use ganc_sys.Batch.Apply.{BuildOutput}
use ganc_sys.Service.Submit.{SubmitBatchResponse}
use ganc_sys.Sequencer.{Drivers}
use ganc_sys.Tests.Flow.{no_output}

abbrev bundle : ProofBundle
bundle = record { proof = codes "0x01"; public_inputs = []; verification_key_id = [] }

-- A build is refused when nothing is left, and a submission settles one batch.
abbrev build_one : ℕ → Result BuildOutput × ℕ
build_one zero = (err no_pending_settlement_operations, zero)
build_one (suc n) = (ok no_output, suc n)

abbrev submit_one : ℕ → Result SubmitBatchResponse × ℕ
submit_one zero = (err no_pending_settlement_operations, zero)
submit_one (suc n) = (
  ok (record {
    tx_hash = codes "AB";
    accepted = true;
    proof_status = codes "accepted";
    settlement_update = no_output.settlement_update;
    batch_commitments = no_output.batch_commitments;
    withdraw_records = [];
    current_state_root = [];
  }),
  n,
)

abbrev countdown : Drivers ℕ
countdown = record {
  build_batch = build_one;
  generate_proof = λ out n. (ok bundle, n);
  submit_batch = λ body n. submit_one n;
  cancel_included_batch = λ id reason n. (ok tt, n);
}

abbrev live : ℕ → Bool
live n = true
