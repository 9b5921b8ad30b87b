-- ===== src/Service/Rehydrate.antt =====
-- internal/service/offchain_settlement_service.go: `RehydrateFromStore`, the start of the process.
use ganc_sys.Prelude.{ℕ, List, [], ◌∷◌, Exec}
use ganc_sys.Prelude.Effects.{modify, ◌>>=◌, ◌>>◌}
use ganc_sys.Text.{Text}
use ganc_sys.State.Manager.{
  OffchainStateManager, manager_apply_deposit, manager_apply_withdraw_request,
}
use ganc_sys.Repository.Settlement.{
  PendingDepositTransition, PendingWithdrawalTransition, list_pending_deposits,
  list_pending_withdrawals,
}
use ganc_sys.Service.Settlement.{OffchainSettlementService, need_repository, on_repository}
use ganc_sys.Service.PendingBatch.{deposit_record_of, withdraw_request_of}

module _ (sha256 : Text → List ℕ) where
  -- The two loops: a row that is refused is skipped, which leaves the manager as it is then.
  unfoldable pub replay_deposits :
      List PendingDepositTransition → OffchainStateManager → OffchainStateManager
  replay_deposits [] m = m
  replay_deposits (d ∷ ds) m =
      replay_deposits ds (manager_apply_deposit sha256 (deposit_record_of d) m).1

  unfoldable pub replay_withdrawals :
      List PendingWithdrawalTransition → OffchainStateManager → OffchainStateManager
  replay_withdrawals [] m = m
  replay_withdrawals (w ∷ ws) m =
      replay_withdrawals ws
        (manager_apply_withdraw_request sha256 (withdraw_request_of w) w.nullifier m).1

  -- `RehydrateFromStore`, less its log lines
  unfoldable pub rehydrate_from_store : Exec OffchainSettlementService (Unit {0})
  rehydrate_from_store = do
    need_repository
    deposits ← on_repository list_pending_deposits
    withdrawals ← on_repository list_pending_withdrawals
    modify (λ s. record s {
      manager = replay_withdrawals withdrawals (replay_deposits deposits s.manager);
    })
