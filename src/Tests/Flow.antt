-- ===== src/Tests/Flow.antt =====
-- Whole flows: a local build, and a deposit, a withdrawal and a batch through the service.
use ganc_sys.Prelude.{ℕ, ◌≡◌, ◌⊎◌, refl, Bool, List, [], ◌∷◌, none, some, Result, ok, err}
use ganc_sys.Text.{Text, codes}
use ganc_sys.State.Local.{LocalState}
use ganc_sys.State.Manager.{OffchainStateManager}
use ganc_sys.Batch.Settlement.{new_settlement_update_builder}
use ganc_sys.Batch.Apply.{BuildInput, BuildOutput}
use ganc_sys.Batch.LocalBuilder.{build_local}
use ganc_sys.Batch.LocalBuilder.Outcome.{IsLocalBatch, build_local_sound}
use ganc_sys.Service.Settlement.{
  OffchainSettlementService, apply_indexed_deposit, apply_withdraw_request, commit_batch,
}
use ganc_sys.Service.Settlement.Commit.{IsCommitted, commit_batch-IsCommitted}
use ganc_sys.Service.PendingBatch.{build_pending_batch}
use ganc_sys.Service.PendingBatch.Outcome.{IsPendingBatch, build_pending_batch_sound}
use ganc_sys.Relayer.{SubmitBatchResult}
use ganc_sys.Service.Submit.{BatchService}
use ganc_sys.Service.Guard.{SubmitBatchRequestBody}
use ganc_sys.Service.Submit.Gate.{IsCleared, IsRefused, submit_batch_gate}
use ganc_sys.Tests.Data.{length_digest, deposit_100, withdraw_40, genesis}
use ganc_sys.Tests.Service.{submission, store, deposit_row, batch_1}
use ganc_sys.Repository.Settlement.{PendingDepositTransition, status_included}
use ganc_sys.Service.Settlement.Indexing.{IsIndexed, apply_indexed_deposit_sound}

abbrev pub no_output : BuildOutput
no_output = record {
  settlement_update = record {
    batch_id = [];
    old_state_root = [];
    new_state_root = [];
    deposits = [];
    withdrawals = [];
  };
  batch_commitments = record {
    deposits_root = [];
    withdrawals_root = [];
    nullifiers_root = [];
    withdraw_outputs_root = [];
  };
  witness = record { accounts = []; state_path = [] };
}

abbrev output_of : Result BuildOutput → BuildOutput
output_of (ok out) = out
output_of (err e) = no_output

abbrev input : BuildInput
input = record {
  old_state_root = codes "0xaa";
  deposits = deposit_100 ∷ [];
  withdraw_requests = withdraw_40 ∷ [];
  account_secrets = [];
}

abbrev local_output : BuildOutput
local_output =
    output_of (build_local length_digest Bool.false input new_settlement_update_builder).0

local_build :
    build_local length_digest Bool.false input new_settlement_update_builder
    ≡ (ok local_output, record { seq = 1 })
unfolding ganc_sys.State.Local.Supply.supply ganc_sys.State.Local.History.run
    ganc_sys.State.Local.History.step ganc_sys.State.Local.apply_withdrawal
    ganc_sys.State.Records.validate_withdraw_request ganc_sys.Text.trim_space
    ganc_sys.State.Account.parse_positive_amount ganc_sys.State.Account.parse_non_negative_amount
    ganc_sys.Text.Decimal.set_string ganc_sys.Dict.member ganc_sys.State.Local.apply_deposit
    ganc_sys.State.Records.validate_deposit ganc_sys.State.Local.new_local_state_with_genesis_root
    ganc_sys.State.Account.credit ganc_sys.State.Account.new_account_key ganc_sys.Dict.lookup
    ganc_sys.State.Account.get_or_zero ganc_sys.Dict.add ganc_sys.Dict.insert
    ganc_sys.Hash.hex_digit ganc_sys.Hash.hex_encode ganc_sys.Hash.sha256_hex
    ganc_sys.State.Account.Valid.amount_of ganc_sys.State.Account.account_before
    ganc_sys.State.Account.debit ganc_sys.State.Account.entry_or_zero ganc_sys.State.Account.get
    ganc_sys.State.Account.key_beq ganc_sys.State.Account.put ganc_sys.State.Account.snapshot
    ganc_sys.State.Account.sort_accounts ganc_sys.State.Account.values
    ganc_sys.State.Json.marshal_accounts ganc_sys.State.Local.new_local_state
    ganc_sys.State.Root.compute_root ganc_sys.Text.Decimal.emit ganc_sys.Text.Decimal.format
    ganc_sys.Text.Decimal.is_digit ganc_sys.Text.Decimal.negate ganc_sys.Text.Decimal.scan
    ganc_sys.Text.Decimal.scan_digits ganc_sys.Text.Order.text_ltb ganc_sys.Text.is_space
    ganc_sys.Text.text_beq ganc_sys.State.Manager.take_snapshot ganc_sys.State.Manager.rollback
    ganc_sys.State.Manager.build_withdraw_request ganc_sys.State.Request.build
    ganc_sys.State.Local.account ganc_sys.State.Nullifier.nullifier_for
    ganc_sys.State.Nullifier.nullifier_preimage ganc_sys.State.Manager.manager_apply_deposit
    ganc_sys.State.Manager.manager_apply_withdraw_request ganc_sys.Text.has_prefix
    ganc_sys.Text.drop ganc_sys.Hash.is_hex_prefixed ganc_sys.Hash.strip_hex
    ganc_sys.State.Address.withdraw_address_hash ganc_sys.Batch.Settlement.parse_positive
    ganc_sys.Batch.Settlement.parse_non_negative ganc_sys.Batch.Settlement.validate_root
    ganc_sys.Batch.Settlement.validate_hex ganc_sys.Batch.Settlement.validate_deposit
    ganc_sys.Batch.Settlement.validate_withdraw ganc_sys.Batch.Settlement.pick_batch_denom
    ganc_sys.Batch.Settlement.settle_deposit ganc_sys.Batch.Settlement.settle_deposits
    ganc_sys.Batch.Settlement.settle_withdrawal ganc_sys.Batch.Settlement.settle_withdrawals
    ganc_sys.Batch.Settlement.check_inputs ganc_sys.Batch.Settlement.build_settlement
    ganc_sys.Prelude.Traverse.traverse ganc_sys.Batch.Witness.sum_deposits
    ganc_sys.Batch.Witness.collect_withdrawals ganc_sys.Batch.Witness.check_nullifiers
    ganc_sys.Batch.Witness.witness_account ganc_sys.Batch.Witness.witness_accounts
    ganc_sys.Batch.Witness.build_witness ganc_sys.Batch.Apply.index_secrets
    ganc_sys.Batch.Apply.resolve_secret ganc_sys.Batch.Apply.add_participant
    ganc_sys.Batch.Apply.add_depositors ganc_sys.Batch.Apply.add_withdrawers
    ganc_sys.Batch.Apply.collect_participants ganc_sys.Batch.Apply.apply_deposits
    ganc_sys.Batch.Apply.apply_request ganc_sys.Batch.Apply.apply_requests
    ganc_sys.Batch.LocalBuilder.apply_batch ganc_sys.Batch.LocalBuilder.build_local
local_build = refl

build_local_sound_example :
    IsLocalBatch length_digest input new_settlement_update_builder local_output
build_local_sound_example =
    build_local_sound length_digest Bool.false input new_settlement_update_builder
      (record { seq = 1 }) local_output local_build

abbrev pub new_service : OffchainSettlementService
new_service = record {
  manager = record { ls = genesis; gen = 0 };
  has_repository = Bool.true;
  repository = record { has_pool = Bool.true; cursors = []; deposits = []; withdrawals = [] };
  cursor_name = codes "default";
  settlement_builder = new_settlement_update_builder;
}

abbrev pub with_deposit : OffchainSettlementService
with_deposit = (apply_indexed_deposit length_digest deposit_100 new_service).1

abbrev with_operations : OffchainSettlementService
with_operations =
    (apply_withdraw_request length_digest withdraw_40 []
      (apply_indexed_deposit length_digest deposit_100 new_service).1).1

abbrev pending_output : BuildOutput
pending_output = output_of (build_pending_batch length_digest [] with_operations).0

abbrev with_batch : OffchainSettlementService
with_batch = (build_pending_batch length_digest [] with_operations).1

pending_build :
    build_pending_batch length_digest [] with_operations ≡ (ok pending_output, with_batch)
unfolding ganc_sys.State.Local.Supply.supply ganc_sys.State.Local.History.run
    ganc_sys.State.Local.History.step ganc_sys.State.Local.apply_withdrawal
    ganc_sys.State.Records.validate_withdraw_request ganc_sys.Text.trim_space
    ganc_sys.State.Account.parse_positive_amount ganc_sys.State.Account.parse_non_negative_amount
    ganc_sys.Text.Decimal.set_string ganc_sys.Dict.member ganc_sys.State.Local.apply_deposit
    ganc_sys.State.Records.validate_deposit ganc_sys.State.Local.new_local_state_with_genesis_root
    ganc_sys.State.Account.credit ganc_sys.State.Account.new_account_key ganc_sys.Dict.lookup
    ganc_sys.State.Account.get_or_zero ganc_sys.Dict.add ganc_sys.Dict.insert
    ganc_sys.Hash.hex_digit ganc_sys.Hash.hex_encode ganc_sys.Hash.sha256_hex
    ganc_sys.State.Account.Valid.amount_of ganc_sys.State.Account.account_before
    ganc_sys.State.Account.debit ganc_sys.State.Account.entry_or_zero ganc_sys.State.Account.get
    ganc_sys.State.Account.key_beq ganc_sys.State.Account.put ganc_sys.State.Account.snapshot
    ganc_sys.State.Account.sort_accounts ganc_sys.State.Account.values
    ganc_sys.State.Json.marshal_accounts ganc_sys.State.Local.new_local_state
    ganc_sys.State.Root.compute_root ganc_sys.Text.Decimal.emit ganc_sys.Text.Decimal.format
    ganc_sys.Text.Decimal.is_digit ganc_sys.Text.Decimal.negate ganc_sys.Text.Decimal.scan
    ganc_sys.Text.Decimal.scan_digits ganc_sys.Text.Order.text_ltb ganc_sys.Text.is_space
    ganc_sys.Text.text_beq ganc_sys.State.Manager.take_snapshot ganc_sys.State.Manager.rollback
    ganc_sys.State.Manager.build_withdraw_request ganc_sys.State.Request.build
    ganc_sys.State.Local.account ganc_sys.State.Nullifier.nullifier_for
    ganc_sys.State.Nullifier.nullifier_preimage ganc_sys.State.Manager.manager_apply_deposit
    ganc_sys.State.Manager.manager_apply_withdraw_request ganc_sys.Text.has_prefix
    ganc_sys.Text.drop ganc_sys.Hash.is_hex_prefixed ganc_sys.Hash.strip_hex
    ganc_sys.State.Address.withdraw_address_hash ganc_sys.Batch.Settlement.parse_positive
    ganc_sys.Batch.Settlement.parse_non_negative ganc_sys.Batch.Settlement.validate_root
    ganc_sys.Batch.Settlement.validate_hex ganc_sys.Batch.Settlement.validate_deposit
    ganc_sys.Batch.Settlement.validate_withdraw ganc_sys.Batch.Settlement.pick_batch_denom
    ganc_sys.Batch.Settlement.settle_deposit ganc_sys.Batch.Settlement.settle_deposits
    ganc_sys.Batch.Settlement.settle_withdrawal ganc_sys.Batch.Settlement.settle_withdrawals
    ganc_sys.Batch.Settlement.check_inputs ganc_sys.Batch.Settlement.build_settlement
    ganc_sys.Prelude.Traverse.traverse ganc_sys.Batch.Witness.sum_deposits
    ganc_sys.Batch.Witness.collect_withdrawals ganc_sys.Batch.Witness.check_nullifiers
    ganc_sys.Batch.Witness.witness_account ganc_sys.Batch.Witness.witness_accounts
    ganc_sys.Batch.Witness.build_witness ganc_sys.Repository.Sql.select_where
    ganc_sys.Repository.Sql.update_where ganc_sys.Repository.Sql.count_where
    ganc_sys.Repository.Sql.upsert ganc_sys.Repository.Sql.update_each
    ganc_sys.Repository.Settlement.find_cursor ganc_sys.Repository.Settlement.get_cursor
    ganc_sys.Repository.Settlement.upsert_cursor ganc_sys.Repository.Settlement.save_pending_deposit
    ganc_sys.Repository.Settlement.save_pending_withdrawal
    ganc_sys.Repository.Settlement.list_pending_deposits
    ganc_sys.Repository.Settlement.list_pending_withdrawals
    ganc_sys.Repository.Settlement.Batches.included
    ganc_sys.Repository.Settlement.Batches.mark_included
    ganc_sys.Service.Ordering.add_pending_transition ganc_sys.Service.Ordering.add_transitions
    ganc_sys.Service.Ordering.follow_roots
    ganc_sys.Service.Ordering.order_pending_settlement_transitions
    ganc_sys.Service.Ordering.bound_single_withdrawal_prefix
    ganc_sys.Service.WitnessAccounts.index_account_secrets
    ganc_sys.Service.WitnessAccounts.resolve_account_secret
    ganc_sys.Service.WitnessAccounts.add_owner_balance
    ganc_sys.Service.WitnessAccounts.collect_owner_balances
    ganc_sys.Service.WitnessAccounts.build_witness_accounts_from_pending_transitions
    ganc_sys.Service.Settlement.get_or_init_cursor_with_root
    ganc_sys.Service.Settlement.get_or_init_cursor ganc_sys.Service.Settlement.update_pending_root
    ganc_sys.Service.Settlement.apply_indexed_deposit
    ganc_sys.Service.Settlement.apply_withdraw_request
    ganc_sys.Service.Settlement.list_pending_settlement ganc_sys.Service.PendingBatch.last_root
    ganc_sys.Service.PendingBatch.selected_deposits
    ganc_sys.Service.PendingBatch.selected_withdrawals ganc_sys.Service.PendingBatch.assemble_batch
    ganc_sys.Service.PendingBatch.build_pending_batch ganc_sys.State.Manager.snapshot_account
    ganc_sys.State.Manager.copy_into ganc_sys.State.Manager.copy_str_set
    ganc_sys.State.Manager.new_local_state_from_snapshot ganc_sys.State.Manager.new_manager
pending_build = refl

build_pending_batch_sound_example :
    IsPendingBatch length_digest pending_output with_operations with_batch
build_pending_batch_sound_example =
    build_pending_batch_sound length_digest [] pending_output with_operations with_batch
      pending_build

abbrev batch_service : BatchService
batch_service = record {
  has_verifier = Bool.true;
  expected_verification_key_id = codes "vk-1";
  state_rollback = some (record { ls = genesis; gen = 0 });
  committed_snapshot = none;
  build_source = codes "manual";
  offchain_settlement = none;
  saved = [];
}

abbrev relayed : SubmitBatchRequestBody → Result SubmitBatchResult
relayed _ = ok (record {
  tx_hash = codes "0xt";
  accepted = Bool.true;
  proof_status = codes "verified";
  withdraw_records = [];
})

submit_batch_gate_example :
    IsCleared (λ _ _ _. Bool.true) relayed submission batch_service
    ⊎ IsRefused (λ _ _ _. Bool.true) relayed length_digest submission batch_service
submit_batch_gate_example =
    submit_batch_gate (λ _ _ _. Bool.true) relayed length_digest submission batch_service refl

abbrev with_included : OffchainSettlementService
with_included = record new_service {
  repository = record store {
    deposits = record deposit_row { status = status_included; batch_id = batch_1 } ∷ [];
  };
}

commit_batch-IsCommitted_example :
    ((commit_batch batch_1 (codes "0xt") (codes "0xr") with_included).0 ≡ ok tt)
    × IsCommitted batch_1
        (codes "0xt")
        (codes "0xr")
        with_included
        (commit_batch batch_1 (codes "0xt") (codes "0xr") with_included).1
commit_batch-IsCommitted_example =
    commit_batch-IsCommitted batch_1 (codes "0xt") (codes "0xr") with_included refl refl refl

abbrev row_or :
    PendingDepositTransition → Result PendingDepositTransition → PendingDepositTransition
row_or d (ok row) = row
row_or d (err e) = d

abbrev indexed_row : PendingDepositTransition
indexed_row = row_or deposit_row (apply_indexed_deposit length_digest deposit_100 new_service).0

indexing :
    apply_indexed_deposit length_digest deposit_100 new_service ≡ (ok indexed_row, with_deposit)
unfolding ganc_sys.State.Local.Supply.supply ganc_sys.State.Local.History.run
    ganc_sys.State.Local.History.step ganc_sys.State.Local.apply_withdrawal
    ganc_sys.State.Records.validate_withdraw_request ganc_sys.Text.trim_space
    ganc_sys.State.Account.parse_positive_amount ganc_sys.State.Account.parse_non_negative_amount
    ganc_sys.Text.Decimal.set_string ganc_sys.Dict.member ganc_sys.State.Local.apply_deposit
    ganc_sys.State.Records.validate_deposit ganc_sys.State.Local.new_local_state_with_genesis_root
    ganc_sys.State.Account.credit ganc_sys.State.Account.new_account_key ganc_sys.Dict.lookup
    ganc_sys.State.Account.get_or_zero ganc_sys.Dict.add ganc_sys.Dict.insert
    ganc_sys.Hash.hex_digit ganc_sys.Hash.hex_encode ganc_sys.Hash.sha256_hex
    ganc_sys.State.Account.Valid.amount_of ganc_sys.State.Account.account_before
    ganc_sys.State.Account.debit ganc_sys.State.Account.entry_or_zero ganc_sys.State.Account.get
    ganc_sys.State.Account.key_beq ganc_sys.State.Account.put ganc_sys.State.Account.snapshot
    ganc_sys.State.Account.sort_accounts ganc_sys.State.Account.values
    ganc_sys.State.Json.marshal_accounts ganc_sys.State.Local.new_local_state
    ganc_sys.State.Root.compute_root ganc_sys.Text.Decimal.emit ganc_sys.Text.Decimal.format
    ganc_sys.Text.Decimal.is_digit ganc_sys.Text.Decimal.negate ganc_sys.Text.Decimal.scan
    ganc_sys.Text.Decimal.scan_digits ganc_sys.Text.Order.text_ltb ganc_sys.Text.is_space
    ganc_sys.Text.text_beq ganc_sys.State.Manager.take_snapshot ganc_sys.State.Manager.rollback
    ganc_sys.State.Manager.build_withdraw_request ganc_sys.State.Request.build
    ganc_sys.State.Local.account ganc_sys.State.Nullifier.nullifier_for
    ganc_sys.State.Nullifier.nullifier_preimage ganc_sys.State.Manager.manager_apply_deposit
    ganc_sys.State.Manager.manager_apply_withdraw_request ganc_sys.Text.has_prefix
    ganc_sys.Text.drop ganc_sys.Hash.is_hex_prefixed ganc_sys.Hash.strip_hex
    ganc_sys.State.Address.withdraw_address_hash ganc_sys.Batch.Settlement.parse_positive
    ganc_sys.Batch.Settlement.parse_non_negative ganc_sys.Batch.Settlement.validate_root
    ganc_sys.Batch.Settlement.validate_hex ganc_sys.Batch.Settlement.validate_deposit
    ganc_sys.Batch.Settlement.validate_withdraw ganc_sys.Batch.Settlement.pick_batch_denom
    ganc_sys.Batch.Settlement.settle_deposit ganc_sys.Batch.Settlement.settle_deposits
    ganc_sys.Batch.Settlement.settle_withdrawal ganc_sys.Batch.Settlement.settle_withdrawals
    ganc_sys.Batch.Settlement.check_inputs ganc_sys.Batch.Settlement.build_settlement
    ganc_sys.Prelude.Traverse.traverse ganc_sys.Batch.Witness.sum_deposits
    ganc_sys.Batch.Witness.collect_withdrawals ganc_sys.Batch.Witness.check_nullifiers
    ganc_sys.Batch.Witness.witness_account ganc_sys.Batch.Witness.witness_accounts
    ganc_sys.Batch.Witness.build_witness ganc_sys.Repository.Sql.select_where
    ganc_sys.Repository.Sql.update_where ganc_sys.Repository.Sql.count_where
    ganc_sys.Repository.Sql.upsert ganc_sys.Repository.Sql.update_each
    ganc_sys.Repository.Settlement.find_cursor ganc_sys.Repository.Settlement.get_cursor
    ganc_sys.Repository.Settlement.upsert_cursor ganc_sys.Repository.Settlement.save_pending_deposit
    ganc_sys.Repository.Settlement.save_pending_withdrawal
    ganc_sys.Repository.Settlement.list_pending_deposits
    ganc_sys.Repository.Settlement.list_pending_withdrawals
    ganc_sys.Repository.Settlement.Batches.included
    ganc_sys.Repository.Settlement.Batches.mark_included
    ganc_sys.Service.Ordering.add_pending_transition ganc_sys.Service.Ordering.add_transitions
    ganc_sys.Service.Ordering.follow_roots
    ganc_sys.Service.Ordering.order_pending_settlement_transitions
    ganc_sys.Service.Ordering.bound_single_withdrawal_prefix
    ganc_sys.Service.WitnessAccounts.index_account_secrets
    ganc_sys.Service.WitnessAccounts.resolve_account_secret
    ganc_sys.Service.WitnessAccounts.add_owner_balance
    ganc_sys.Service.WitnessAccounts.collect_owner_balances
    ganc_sys.Service.WitnessAccounts.build_witness_accounts_from_pending_transitions
    ganc_sys.Service.Settlement.get_or_init_cursor_with_root
    ganc_sys.Service.Settlement.get_or_init_cursor ganc_sys.Service.Settlement.update_pending_root
    ganc_sys.Service.Settlement.apply_indexed_deposit
    ganc_sys.Service.Settlement.apply_withdraw_request
    ganc_sys.Service.Settlement.list_pending_settlement ganc_sys.Service.PendingBatch.last_root
    ganc_sys.Service.PendingBatch.selected_deposits
    ganc_sys.Service.PendingBatch.selected_withdrawals ganc_sys.Service.PendingBatch.assemble_batch
    ganc_sys.Service.PendingBatch.build_pending_batch ganc_sys.State.Manager.snapshot_account
    ganc_sys.State.Manager.copy_into ganc_sys.State.Manager.copy_str_set
    ganc_sys.State.Manager.new_local_state_from_snapshot ganc_sys.State.Manager.new_manager
indexing = refl

apply_indexed_deposit_sound_example :
    IsIndexed length_digest deposit_100 indexed_row new_service with_deposit
apply_indexed_deposit_sound_example =
    apply_indexed_deposit_sound length_digest deposit_100 indexed_row new_service with_deposit
      indexing
