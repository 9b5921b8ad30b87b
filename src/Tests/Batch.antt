-- ===== src/Tests/Batch.antt =====
-- A batch of one deposit and one withdrawal, and the theorems about batches applied to it.
use ganc_sys.Prelude.{ℕ, ◌<◌, ◌≡◌, ◌↔◌, refl, ◌++◌, List, [], ◌∷◌, ok, All2, length}
use ganc_sys.Text.{Text, codes, trim_space}
use ganc_sys.Hash.{sha256_hex}
use ganc_sys.Types.{SettlementUpdate, Witness}
use ganc_sys.State.Nullifier.{nullifier_preimage, nullifier_for}
use ganc_sys.State.Address.{withdraw_address_hash, withdraw_address_domain_tag}
use ganc_sys.Batch.Settlement.{
  SettlementInputs, SettlementUpdateBuilder, WithdrawalInput, build_settlement,
  new_settlement_update_builder,
}
use ganc_sys.Batch.Settlement.Build.{IsSettleable, next_seq, settlement_of, build_settlement_iff}
use ganc_sys.Batch.Commitments.{build_commitments}
use ganc_sys.Batch.PublicInputs.{build_public_inputs}
use ganc_sys.Batch.PublicInputs.Contract.{public_inputs_of, built_settlement_has_public_inputs}
use ganc_sys.Batch.Witness.{WitnessInputs, AccountWitnessSecret, build_witness}
use ganc_sys.Batch.Witness.Balance.{IsWitnessed, build_witness_sound}
use ganc_sys.Tests.Data.{length_digest, length_digest-IsDigest, alice, deposit_100, withdraw_40}

abbrev withdrawal : WithdrawalInput
withdrawal = record {
  request = withdraw_40;
  nullifier = sha256_hex length_digest (nullifier_preimage (codes "k") 1);
  destination_hash = sha256_hex length_digest (withdraw_address_domain_tag ++ codes "|cosmos1dest");
}

abbrev pub inputs : SettlementInputs
inputs = record {
  old_state_root = codes "0xaa";
  new_state_root = codes "0xbb";
  deposits = deposit_100 ∷ [];
  withdrawals = withdrawal ∷ [];
}

abbrev pub builder : SettlementUpdateBuilder
builder = new_settlement_update_builder

abbrev pub update : SettlementUpdate
update = settlement_of inputs builder

pub settled : build_settlement length_digest inputs builder ≡ (ok update, next_seq builder)
unfolding trim_space ganc_sys.Text.is_space ganc_sys.Text.text_beq ganc_sys.Text.has_prefix
    ganc_sys.Text.drop ganc_sys.Hash.is_hex_prefixed ganc_sys.Hash.strip_hex ganc_sys.Hash.hex_digit
    ganc_sys.Hash.hex_encode sha256_hex ganc_sys.Text.Decimal.set_string ganc_sys.Text.Decimal.scan
    ganc_sys.Text.Decimal.scan_digits ganc_sys.Text.Decimal.is_digit ganc_sys.Text.Decimal.negate
    ganc_sys.Text.Decimal.emit ganc_sys.Text.Decimal.format nullifier_for nullifier_preimage
    withdraw_address_hash ganc_sys.State.Account.parse_non_negative_amount
    ganc_sys.Batch.Settlement.parse_positive ganc_sys.Batch.Settlement.parse_non_negative
    ganc_sys.Batch.Settlement.validate_root ganc_sys.Batch.Settlement.validate_hex
    ganc_sys.Batch.Settlement.validate_deposit ganc_sys.Batch.Settlement.validate_withdraw
    ganc_sys.Batch.Settlement.pick_batch_denom ganc_sys.Batch.Settlement.settle_deposit
    ganc_sys.Batch.Settlement.settle_deposits ganc_sys.Batch.Settlement.settle_withdrawal
    ganc_sys.Batch.Settlement.settle_withdrawals ganc_sys.Batch.Settlement.check_inputs
    build_settlement ganc_sys.Prelude.Traverse.traverse ganc_sys.State.Account.Valid.amount_of
settled = refl

build_settlement_iff_example :
    (build_settlement length_digest inputs builder ≡ (ok update, next_seq builder)) ↔ (
      ((denom : Text) × IsSettleable length_digest inputs denom)
      × (update ≡ settlement_of inputs builder)
      × (next_seq builder ≡ next_seq builder))
build_settlement_iff_example =
    build_settlement_iff length_digest inputs builder (next_seq builder) update

built_settlement_has_public_inputs_example :
    build_public_inputs update (build_commitments length_digest update)
    ≡ ok (public_inputs_of update (build_commitments length_digest update))
built_settlement_has_public_inputs_example =
    built_settlement_has_public_inputs length_digest length_digest-IsDigest inputs builder
      (next_seq builder) update settled

abbrev witness_inputs : WitnessInputs
witness_inputs = record {
  settlement = inputs;
  accounts =
      (record {
        owner = alice;
        user_secret = codes "k";
        old_balance = codes "0";
        new_balance = codes "60";
      })
      ∷ [];
  state_path = [];
}

abbrev witness : Witness
witness = record {
  accounts =
      (record {
        owner = alice;
        user_secret = codes "k";
        nonce = codes "1";
        old_balance = codes "0";
        new_balance = codes "60";
      })
      ∷ [];
  state_path = [];
}

witnessed : build_witness length_digest witness_inputs ≡ ok witness
unfolding trim_space ganc_sys.Text.is_space ganc_sys.Text.text_beq ganc_sys.Text.has_prefix
    ganc_sys.Text.drop ganc_sys.Hash.is_hex_prefixed ganc_sys.Hash.strip_hex ganc_sys.Hash.hex_digit
    ganc_sys.Hash.hex_encode sha256_hex ganc_sys.Text.Decimal.set_string ganc_sys.Text.Decimal.scan
    ganc_sys.Text.Decimal.scan_digits ganc_sys.Text.Decimal.is_digit ganc_sys.Text.Decimal.negate
    ganc_sys.Text.Decimal.emit ganc_sys.Text.Decimal.format nullifier_for nullifier_preimage
    withdraw_address_hash ganc_sys.State.Account.parse_non_negative_amount
    ganc_sys.Batch.Settlement.parse_positive ganc_sys.Batch.Settlement.parse_non_negative
    ganc_sys.Batch.Settlement.validate_root ganc_sys.Batch.Settlement.validate_hex
    ganc_sys.Batch.Settlement.validate_deposit ganc_sys.Batch.Settlement.validate_withdraw
    ganc_sys.Batch.Settlement.pick_batch_denom ganc_sys.Batch.Settlement.settle_deposit
    ganc_sys.Batch.Settlement.settle_deposits ganc_sys.Batch.Settlement.settle_withdrawal
    ganc_sys.Batch.Settlement.settle_withdrawals ganc_sys.Batch.Settlement.check_inputs
    build_settlement ganc_sys.Prelude.Traverse.traverse ganc_sys.Batch.Witness.sum_deposits
    ganc_sys.Batch.Witness.collect_withdrawals ganc_sys.Batch.Witness.check_nullifiers
    ganc_sys.Batch.Witness.witness_account ganc_sys.Batch.Witness.witness_accounts build_witness
witnessed = refl

build_witness_sound_example :
    All2 (IsWitnessed length_digest inputs) witness_inputs.accounts witness.accounts
    × (0 < length witness_inputs.accounts)
    × (witness.state_path ≡ witness_inputs.state_path)
build_witness_sound_example = build_witness_sound length_digest witness_inputs witness witnessed
