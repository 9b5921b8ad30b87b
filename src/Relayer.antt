-- ===== src/Relayer.antt =====
-- internal/relayer/client.go: what the relayer is asked and answers, and the local client.
-- `json.Marshal` of the hashed values is a parameter.
pub mod Cosmos
pub mod Local
use ganc_sys.Prelude.Checked.{◌>>=◌, ◌>>◌}
use ganc_sys.Prelude.{
  ℕ, Bool, true, false, not, List, [], ◌∷◌, ◌++◌, map, ◌==◌, Result, ok, eqb, length, require,
  other_failure, if◌then◌else◌,
}
use ganc_sys.Text.{Text, text_eq, codes, is_empty}
use ganc_sys.Hash.{hex_encode}
use ganc_sys.Types.{
  SettlementUpdate, SettlementWithdrawal, BatchCommitments, ProofBundle, WithdrawRecord,
}

pub record SubmitBatchInput : Type 0 where
  pub settlement_update : SettlementUpdate
  pub batch_commitments : BatchCommitments
  pub proof_bundle : ProofBundle

pub record SubmitBatchResult : Type 0 where
  pub tx_hash : Text
  pub accepted : Bool
  pub proof_status : Text
  pub withdraw_records : List WithdrawRecord

pub record ClaimWithdrawResult : Type 0 where
  pub tx_hash : Text
  pub withdraw_record : WithdrawRecord

-- A round of the loop over the withdrawals of a settlement.
abbrev pub unclaimed_record : SettlementWithdrawal → WithdrawRecord
unclaimed_record w = record {
  withdraw_id = w.withdraw_id;
  owner = w.owner;
  denom = w.denom;
  amount = w.amount;
  destination = w.destination;
  nullifier = w.nullifier;
  claimed = false;
}

-- The six roots in the order of the public inputs.
abbrev pub expected_inputs : SubmitBatchInput → List Text
expected_inputs input =
    input.settlement_update.old_state_root ∷ input.settlement_update.new_state_root
    ∷ input.batch_commitments.deposits_root ∷ input.batch_commitments.withdrawals_root
    ∷ input.batch_commitments.nullifiers_root ∷ input.batch_commitments.withdraw_outputs_root ∷ []

-- The loop over the indices; both lists have six entries by then.
unfoldable pub same_inputs : List Text → List Text → Bool
same_inputs given [] = true
same_inputs [] (e ∷ es) = false
same_inputs (g ∷ given) (e ∷ es) = let rest = same_inputs given es in if g == e then rest else false

-- `validatePublicInputs`
unfoldable pub validate_public_inputs : SubmitBatchInput → Result (Unit {0})
unfolding same_inputs
validate_public_inputs input = do
  require (not (is_empty input.settlement_update.batch_id)) other_failure
  require (not (is_empty input.proof_bundle.proof)) other_failure
  require (eqb (length input.proof_bundle.public_inputs) 6) other_failure
  require (same_inputs input.proof_bundle.public_inputs (expected_inputs input)) other_failure

module _ (sha256 : Text → List ℕ) where
  -- `hashJSON` of a value that marshals to `raw`
  unfoldable pub hash_json : Text → Text → Text
  unfolding hex_encode
  hash_json label raw = codes "0x" ++ hex_encode (sha256 (label ++ codes "|" ++ raw ++ codes "|"))

  -- `LocalClient.SubmitBatch`
  unfoldable pub submit_batch_local :
      (SubmitBatchInput → Text) → SubmitBatchInput → Result SubmitBatchResult
  unfolding hash_json
  submit_batch_local marshal input = do
    validate_public_inputs input
    ok (record {
      tx_hash = hash_json (codes "local-submit-batch") (marshal input);
      accepted = true;
      proof_status = codes "accepted";
      withdraw_records = map unclaimed_record input.settlement_update.withdrawals;
    })

  -- `LocalClient.ClaimWithdraw`
  unfoldable pub claim_withdraw_local :
      (WithdrawRecord → Text) → WithdrawRecord → Result ClaimWithdrawResult
  unfolding hash_json
  claim_withdraw_local marshal r = do
    require (not (is_empty r.withdraw_id)) other_failure
    require (not r.claimed) other_failure
    let claimed = record r { claimed = true }
    ok (record {
      tx_hash = hash_json (codes "local-claim-withdraw") (marshal claimed);
      withdraw_record = claimed;
    })
