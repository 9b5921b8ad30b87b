-- ===== src/Prover.antt =====
-- internal/prover: the local prover, the validation of bundles and artifacts, and what the remote
-- client makes of an answer. HTTP, JSON and the hashed JSON text are parameters.
pub mod Artifact
pub mod Remote
use ganc_sys.Prelude.Checked.{◌>>=◌, ◌>>◌}
use ganc_sys.Prelude.{◌||◌, not, List, [], ◌∷◌, Result, ok, other_failure, require, length, eqb, ℕ}
use ganc_sys.Text.{Text, codes, is_empty}
use ganc_sys.Types.{SettlementUpdate, BatchCommitments, Witness, ProofBundle}
use ganc_sys.Relayer.{hash_json}

pub record GenerateProofInput : Type 0 where
  pub settlement_update : SettlementUpdate
  pub batch_commitments : BatchCommitments
  pub witness : Witness

abbrev pub local_public_inputs : GenerateProofInput → List Text
local_public_inputs input =
    input.settlement_update.old_state_root ∷ input.settlement_update.new_state_root
    ∷ input.batch_commitments.deposits_root ∷ input.batch_commitments.withdrawals_root
    ∷ input.batch_commitments.nullifiers_root ∷ input.batch_commitments.withdraw_outputs_root ∷ []

-- `LocalClient.GenerateProof`; `marshal` is the JSON of the hashed map.
unfoldable pub generate_proof_local :
    (Text → List ℕ) → (GenerateProofInput → Text) → GenerateProofInput → Result ProofBundle
generate_proof_local sha256 marshal input = do
  require (not (is_empty input.settlement_update.old_state_root)) other_failure
  require (not (is_empty input.settlement_update.new_state_root)) other_failure
  require
      (not (
        is_empty input.batch_commitments.deposits_root
        || is_empty input.batch_commitments.withdrawals_root
        || is_empty input.batch_commitments.nullifiers_root
        || is_empty input.batch_commitments.withdraw_outputs_root))
      other_failure
  require (not (eqb (length input.witness.accounts) 0)) other_failure
  ok (record {
    proof = hash_json sha256 (codes "local-proof") (marshal input);
    public_inputs = local_public_inputs input;
    verification_key_id = codes "local-v1";
  })
