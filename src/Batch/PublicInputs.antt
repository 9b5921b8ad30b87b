-- ===== src/Batch/PublicInputs.antt =====
-- internal/batch/public_inputs.go: the public inputs of a proof, in their fixed order.
pub mod Contract
use ganc_sys.Prelude.{
  ℕ, List, [], ◌∷◌, not, ◌==◌, Result, ok, require, replace_error, invalid_public_inputs,
}
use ganc_sys.Prelude.Checked.{◌>>=◌, ◌>>◌}
use ganc_sys.Text.{Text, text_eq}
use ganc_sys.Types.{SettlementUpdate, BatchCommitments}
use ganc_sys.Batch.Settlement.{validate_hex}

abbrev pub public_input_count : ℕ
public_input_count = 6

-- `Build`, and `BuildPublicInputs`
unfoldable pub build_public_inputs : SettlementUpdate → BatchCommitments → Result (List Text)
build_public_inputs upd commitments = do
  replace_error invalid_public_inputs (validate_hex upd.old_state_root)
  replace_error invalid_public_inputs (validate_hex upd.new_state_root)
  require (not (upd.old_state_root == upd.new_state_root)) invalid_public_inputs
  replace_error invalid_public_inputs (validate_hex commitments.deposits_root)
  replace_error invalid_public_inputs (validate_hex commitments.withdrawals_root)
  replace_error invalid_public_inputs (validate_hex commitments.nullifiers_root)
  replace_error invalid_public_inputs (validate_hex commitments.withdraw_outputs_root)
  ok (
      upd.old_state_root ∷ upd.new_state_root ∷ commitments.deposits_root
      ∷ commitments.withdrawals_root ∷ commitments.nullifiers_root
      ∷ commitments.withdraw_outputs_root ∷ [])
