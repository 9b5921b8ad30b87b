-- ===== src/Service/PendingBatch.antt =====
-- internal/service/offchain_settlement_service.go: `BuildPendingBatch`.
pub mod Outcome
use ganc_sys.Prelude.{
  ℕ, Bool, map, List, [], ◌∷◌, none, some, Option, Exec, no_pending_settlement_operations,
  other_failure,
}
use ganc_sys.Prelude.Effects.{pure, raise, lift, raise_if, ◌>>=◌, ◌>>◌}
use ganc_sys.Dict.{member, add}
use ganc_sys.Text.{Text, text_eq}
use ganc_sys.Types.{DepositRecord, WithdrawRequest}
use ganc_sys.Repository.Sql.{select_where}
use ganc_sys.Repository.Settlement.{PendingDepositTransition, PendingWithdrawalTransition}
use ganc_sys.Repository.Settlement.Batches.{mark_included}
use ganc_sys.Batch.Settlement.{SettlementInputs, WithdrawalInput, build_settlement}
use ganc_sys.Batch.Commitments.{build_commitments}
use ganc_sys.Batch.Witness.{build_witness}
use ganc_sys.Batch.Apply.{AccountSecret, BuildOutput}
use ganc_sys.Service.Ordering.{
  TransitionKind, PendingSettlementTransition, order_pending_settlement_transitions,
  bound_single_withdrawal_prefix,
}
use ganc_sys.Service.WitnessAccounts.{build_witness_accounts_from_pending_transitions}
use ganc_sys.Service.Settlement.{
  OffchainSettlementService, need_repository, on_repository, on_builder, get_or_init_cursor,
  list_pending_settlement,
}

-- `boundedTransitions[len(boundedTransitions)-1].rootAfter`; none for the empty list, where the
-- source would panic.
unfoldable pub last_root : List PendingSettlementTransition → Option Text
last_root [] = none
last_root (t ∷ []) = some t.root_after
last_root (t ∷ u ∷ ts) = last_root (u ∷ ts)

-- The two maps of selected ids, in one loop.
unfoldable pub selected_deposits : List PendingSettlementTransition → List Text
selected_deposits [] = []
selected_deposits (t ∷ ts) =
    let rest = selected_deposits ts in
    elim (t.kind) [ TransitionKind.deposit ↦ add t.id rest | TransitionKind.withdrawal ↦ rest ]

unfoldable pub selected_withdrawals : List PendingSettlementTransition → List Text
selected_withdrawals [] = []
selected_withdrawals (t ∷ ts) =
    let rest = selected_withdrawals ts in
    elim (t.kind) [ TransitionKind.deposit ↦ rest | TransitionKind.withdrawal ↦ add t.id rest ]

abbrev pub deposit_record_of : PendingDepositTransition → DepositRecord
deposit_record_of d = record {
  deposit_id = d.deposit_id;
  owner = d.owner_address;
  denom = d.denom;
  amount = d.amount;
  processed = Bool.false;
  created_height = 0;
  tx_hash = [];
}

abbrev pub withdraw_request_of : PendingWithdrawalTransition → WithdrawRequest
withdraw_request_of w = record {
  withdraw_id = w.withdraw_id;
  owner = w.owner_address;
  denom = w.denom;
  amount = w.amount;
  destination = w.destination_address;
  nonce = w.nonce;
  signature = w.signature;
}

abbrev pub withdrawal_input_of : PendingWithdrawalTransition → WithdrawalInput
withdrawal_input_of w = record {
  request = withdraw_request_of w;
  nullifier = w.nullifier;
  destination_hash = w.destination_hash;
}

abbrev pub nothing_pending : List PendingDepositTransition → List PendingWithdrawalTransition → Bool
nothing_pending [] [] = Bool.true
nothing_pending [] (w ∷ ws) = Bool.false
nothing_pending (d ∷ ds) ws = Bool.false

module _ (sha256 : Text → List ℕ) where
  -- What follows once the transitions of the batch are chosen.
  unfoldable pub assemble_batch :
      Text
      → Text
      → List PendingSettlementTransition
      → List AccountSecret
      → List PendingDepositTransition
      → List PendingWithdrawalTransition
      → Exec OffchainSettlementService BuildOutput
  assemble_batch committed_root new_state_root bounded account_secrets deposits withdrawals = do
    let settlement_input : SettlementInputs = record {
      old_state_root = committed_root;
      new_state_root = new_state_root;
      deposits = map deposit_record_of deposits;
      withdrawals = map withdrawal_input_of withdrawals;
    }
    settlement_update ← on_builder (build_settlement sha256 settlement_input)
    witness_accounts ←
        lift (build_witness_accounts_from_pending_transitions bounded account_secrets)
    witness ← lift (
        build_witness sha256
          (record { settlement = settlement_input; accounts = witness_accounts; state_path = [] }))
    on_repository (
        mark_included settlement_update.batch_id (map (λ d. d.deposit_id) deposits)
          (map (λ w. w.withdraw_id) withdrawals))
    pure (record {
      settlement_update = settlement_update;
      batch_commitments = build_commitments sha256 settlement_update;
      witness = witness;
    })

  -- `BuildPendingBatch`
  unfoldable pub build_pending_batch :
      List AccountSecret → Exec OffchainSettlementService BuildOutput
  build_pending_batch account_secrets = do
    need_repository
    cursor ← get_or_init_cursor
    pending ← list_pending_settlement
    let (pending_deposits, pending_withdrawals) = pending
    raise_if (nothing_pending pending_deposits pending_withdrawals) no_pending_settlement_operations
    ordered ← lift (
        order_pending_settlement_transitions cursor.committed_root pending_deposits
          pending_withdrawals)
    let bounded = bound_single_withdrawal_prefix ordered
    let deposit_ids = selected_deposits bounded
    let withdraw_ids = selected_withdrawals bounded
    elim (last_root bounded) [
      | none ↦ raise other_failure
      | some new_state_root ↦
          assemble_batch cursor.committed_root new_state_root bounded account_secrets
            (select_where (λ d. member d.deposit_id deposit_ids) pending_deposits)
            (select_where (λ w. member w.withdraw_id withdraw_ids) pending_withdrawals)
    ]
