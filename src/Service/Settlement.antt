-- ===== src/Service/Settlement.antt =====
-- internal/service/offchain_settlement_service.go: the service. Each method is one step, which the
-- single writer that the program runs makes it.
pub mod Commit
pub mod Indexing
use ganc_sys.Prelude.{
  ℕ, Bool, true, false, not, List, [], Error, Result, ok, err, Exec, record_not_found,
  offchain_settlement_unavailable, if◌then◌else◌,
}
use ganc_sys.Prelude.Effects.{pure, raise, lift, gets, raise_if, zoom, ◌>>=◌, ◌>>◌}
use ganc_sys.Text.{Text, text_eq, is_empty, trim_space}
use ganc_sys.Types.{DepositRecord, WithdrawRequest}
use ganc_sys.State.Nullifier.{nullifier_for}
use ganc_sys.State.Address.{withdraw_address_hash}
use ganc_sys.State.Manager.{
  OffchainStateManager, take_snapshot, snapshot_account, manager_apply_deposit,
  manager_apply_withdraw_request,
}
use ganc_sys.Repository.Settlement.{
  OffchainSettlementRepository, OffchainStateCursor, PendingDepositTransition,
  PendingWithdrawalTransition, status_pending, get_cursor, upsert_cursor, save_pending_deposit,
  save_pending_withdrawal, list_pending_deposits, list_pending_withdrawals,
}
use ganc_sys.Repository.Settlement.Batches.{mark_committed, mark_failed, reopen_included}
use ganc_sys.Batch.Settlement.{SettlementUpdateBuilder}
use ganc_sys.Service.WitnessAccounts.{offchain_settlement_default_secret}

-- `has_repository` is whether the field `repository` is not nil; the witness builder has no state.
pub record OffchainSettlementService : Type 0 where
  pub manager : OffchainStateManager
  pub has_repository : Bool
  pub repository : OffchainSettlementRepository
  pub cursor_name : Text
  pub settlement_builder : SettlementUpdateBuilder

module _ {A : Type 0} where
  abbrev pub on_manager : Exec OffchainStateManager A → Exec OffchainSettlementService A
  on_manager = zoom (λ s. s.manager) (λ m s. record s { manager = m })

  abbrev pub on_repository : Exec OffchainSettlementRepository A → Exec OffchainSettlementService A
  on_repository = zoom (λ s. s.repository) (λ r s. record s { repository = r })

  abbrev pub on_builder : Exec SettlementUpdateBuilder A → Exec OffchainSettlementService A
  on_builder = zoom (λ s. s.settlement_builder) (λ b s. record s { settlement_builder = b })

-- `if s.repository == nil { return …, ErrOffchainSettlementUnavailable }`
abbrev pub need_repository : Exec OffchainSettlementService (Unit {0})
need_repository s = raise_if (not s.has_repository) offchain_settlement_unavailable s

abbrev pub is_not_found : Error → Bool
is_not_found record_not_found = true
is_not_found _ = false

-- What `getOrInitCursorWithRoot` does with the answer of `GetCursor`.
abbrev pub or_init_cursor :
    Text → Result OffchainStateCursor → Exec OffchainSettlementService OffchainStateCursor
or_init_cursor root (ok cursor) = pure cursor
or_init_cursor root (err e) =
    if is_not_found e
    then (do
      name ← gets (λ s. s.cursor_name)
      let cursor : OffchainStateCursor = record {
        name = name;
        committed_root = root;
        pending_root = root;
        last_committed_batch_id = [];
      }
      on_repository (upsert_cursor cursor)
      pure cursor)
    else raise e

-- `getOrInitCursorWithRoot`
unfoldable pub get_or_init_cursor_with_root :
    Text → Exec OffchainSettlementService OffchainStateCursor
get_or_init_cursor_with_root root s =
    let (answer, r) = get_cursor s.cursor_name s.repository in
    or_init_cursor root answer (record s { repository = r })

-- `getOrInitCursor`
unfoldable pub get_or_init_cursor : Exec OffchainSettlementService OffchainStateCursor
unfolding get_or_init_cursor_with_root
get_or_init_cursor s = get_or_init_cursor_with_root s.manager.ls.root s

-- `updatePendingRoot`
unfoldable pub update_pending_root : Text → Exec OffchainSettlementService (Unit {0})
update_pending_root pending_root = do
  cursor ← get_or_init_cursor
  on_repository (upsert_cursor (record cursor { pending_root = pending_root }))

module _ (sha256 : Text → List ℕ) where
  -- `ApplyIndexedDeposit`
  unfoldable pub apply_indexed_deposit :
      DepositRecord → Exec OffchainSettlementService PendingDepositTransition
  apply_indexed_deposit deposit = do
    need_repository
    before_snapshot ← gets (λ s. take_snapshot s.manager)
    let before_account = snapshot_account deposit.owner deposit.denom before_snapshot
    get_or_init_cursor_with_root before_snapshot.root
    root_after ← on_manager (manager_apply_deposit sha256 deposit)
    after_snapshot ← gets (λ s. take_snapshot s.manager)
    let after_account = snapshot_account deposit.owner deposit.denom after_snapshot
    let transition : PendingDepositTransition = record {
      deposit_id = deposit.deposit_id;
      owner_address = deposit.owner;
      denom = deposit.denom;
      amount = deposit.amount;
      root_before = before_snapshot.root;
      root_after = root_after;
      balance_before = before_account.balance;
      balance_after = after_account.balance;
      status = status_pending;
      batch_id = [];
      tx_hash = [];
      error_message = [];
    }
    on_repository (save_pending_deposit transition)
    update_pending_root after_snapshot.root
    pure transition

  -- `ApplyWithdrawRequest`
  unfoldable pub apply_withdraw_request :
      WithdrawRequest → Text → Exec OffchainSettlementService PendingWithdrawalTransition
  apply_withdraw_request req user_secret = do
    need_repository
    let secret =
        if is_empty (trim_space user_secret)
        then offchain_settlement_default_secret
        else user_secret
    nullifier ← lift (nullifier_for sha256 secret req.nonce)
    destination_hash ← lift (withdraw_address_hash sha256 req.destination)
    before_snapshot ← gets (λ s. take_snapshot s.manager)
    let before_account = snapshot_account req.owner req.denom before_snapshot
    get_or_init_cursor_with_root before_snapshot.root
    root_after ← on_manager (manager_apply_withdraw_request sha256 req nullifier)
    after_snapshot ← gets (λ s. take_snapshot s.manager)
    let after_account = snapshot_account req.owner req.denom after_snapshot
    let transition : PendingWithdrawalTransition = record {
      withdraw_id = req.withdraw_id;
      owner_address = req.owner;
      denom = req.denom;
      amount = req.amount;
      destination_address = req.destination;
      nonce = req.nonce;
      signature = req.signature;
      nullifier = nullifier;
      destination_hash = destination_hash;
      root_before = before_snapshot.root;
      root_after = root_after;
      balance_before = before_account.balance;
      balance_after = after_account.balance;
      status = status_pending;
      batch_id = [];
      tx_hash = [];
      error_message = [];
    }
    on_repository (save_pending_withdrawal transition)
    update_pending_root after_snapshot.root
    pure transition

-- `ListPendingSettlement`
unfoldable pub list_pending_settlement :
    Exec OffchainSettlementService
      (List PendingDepositTransition × List PendingWithdrawalTransition)
list_pending_settlement = do
  need_repository
  deposits ← on_repository list_pending_deposits
  withdrawals ← on_repository list_pending_withdrawals
  pure (deposits, withdrawals)

-- `CommitBatch`
unfoldable pub commit_batch : Text → Text → Text → Exec OffchainSettlementService (Unit {0})
commit_batch batch_id tx_hash new_committed_root = do
  need_repository
  on_repository (mark_committed batch_id tx_hash)
  cursor ← get_or_init_cursor
  on_repository (
      upsert_cursor (record cursor {
        committed_root = new_committed_root;
        pending_root = new_committed_root;
        last_committed_batch_id = batch_id;
      }))

-- `FailBatch`
unfoldable pub fail_batch : Text → Text → Exec OffchainSettlementService (Unit {0})
fail_batch batch_id reason = do need_repository; on_repository (mark_failed batch_id reason)

-- `CancelIncludedBatch`
unfoldable pub cancel_included_batch : Text → Text → Exec OffchainSettlementService (Unit {0})
cancel_included_batch batch_id reason = do
  need_repository
  on_repository (reopen_included batch_id reason)
