-- ===== src/Repository/Settlement/Batches.antt =====
-- internal/repository/offchain_settlement_repository.go: the transactions on the rows of a batch.
use ganc_sys.Prelude.{
  ◌+◌, Bool, ◌&&◌, List, [], ◌==◌, Result, ok, err, Exec, eqb, record_not_found, if◌then◌else◌,
}
use ganc_sys.Prelude.Effects.{◌>>◌}
use ganc_sys.Text.{Text, text_eq}
use ganc_sys.Repository.Sql.{update_where, count_where, update_each}
use ganc_sys.Repository.Settlement.{
  OffchainSettlementRepository, PendingDepositTransition, PendingWithdrawalTransition, need_pool,
  status_pending, status_included, status_committed, status_failed,
}

abbrev pub include_deposit : Text → PendingDepositTransition → PendingDepositTransition
include_deposit batch_id d = record d { status = status_included; batch_id = batch_id }

abbrev pub include_withdrawal : Text → PendingWithdrawalTransition → PendingWithdrawalTransition
include_withdrawal batch_id w = record w { status = status_included; batch_id = batch_id }

-- The transaction of `MarkIncluded`; an early return rolls it back.
unfoldable pub included :
    Text
    → List Text
    → List Text
    → OffchainSettlementRepository
    → Result OffchainSettlementRepository
included batch_id deposit_ids withdraw_ids r =
    elim (update_each (λ d. d.deposit_id) (include_deposit batch_id) deposit_ids r.deposits) [
      | err e ↦ err e
      | ok ds ↦
          elim (update_each (λ w. w.withdraw_id) (include_withdrawal batch_id) withdraw_ids
            r.withdrawals) [
              | err e ↦ err e
              | ok ws ↦ ok (record r { deposits = ds; withdrawals = ws })
            ]
    ]

-- `Begin`, and `Rollback` on an error
abbrev pub in_transaction :
    (OffchainSettlementRepository → Result OffchainSettlementRepository)
    → Exec OffchainSettlementRepository (Unit {0})
in_transaction body r = elim (body r) [ err e ↦ (err e, r) | ok r' ↦ (ok tt, r') ]

-- `MarkIncluded`
unfoldable pub mark_included :
    Text → List Text → List Text → Exec OffchainSettlementRepository (Unit {0})
mark_included batch_id deposit_ids withdraw_ids = do
  need_pool
  in_transaction (included batch_id deposit_ids withdraw_ids)

-- `markByBatch`
unfoldable pub mark_by_batch :
    Text → Text → Text → Text → Exec OffchainSettlementRepository (Unit {0})
mark_by_batch batch_id status tx_hash error_message = do
  need_pool
  in_transaction (λ r. ok (record r {
    deposits =
        update_where (λ d. d.batch_id == batch_id)
          (λ d. record d { status = status; tx_hash = tx_hash; error_message = error_message })
          r.deposits;
    withdrawals =
        update_where (λ w. w.batch_id == batch_id)
          (λ w. record w { status = status; tx_hash = tx_hash; error_message = error_message })
          r.withdrawals;
  }))

-- `MarkCommitted`
unfoldable pub mark_committed : Text → Text → Exec OffchainSettlementRepository (Unit {0})
unfolding mark_by_batch
mark_committed batch_id tx_hash = mark_by_batch batch_id status_committed tx_hash []

-- `MarkFailed`
unfoldable pub mark_failed : Text → Text → Exec OffchainSettlementRepository (Unit {0})
unfolding mark_by_batch
mark_failed batch_id error_message = mark_by_batch batch_id status_failed [] error_message

-- The rows of a batch that is not settled.
abbrev pub is_open_deposit : Text → PendingDepositTransition → Bool
is_open_deposit batch_id d = d.batch_id == batch_id && d.status == status_included

abbrev pub is_open_withdrawal : Text → PendingWithdrawalTransition → Bool
is_open_withdrawal batch_id w = w.batch_id == batch_id && w.status == status_included

abbrev pub reopen_deposit : Text → PendingDepositTransition → PendingDepositTransition
reopen_deposit reason d = record d {
  status = status_pending;
  batch_id = [];
  tx_hash = [];
  error_message = reason;
}

abbrev pub reopen_withdrawal : Text → PendingWithdrawalTransition → PendingWithdrawalTransition
reopen_withdrawal reason w = record w {
  status = status_pending;
  batch_id = [];
  tx_hash = [];
  error_message = reason;
}

-- The transaction of `ReopenIncluded`.
unfoldable pub reopened :
    Text → Text → OffchainSettlementRepository → Result OffchainSettlementRepository
reopened batch_id reason r =
    if eqb
      (count_where (is_open_deposit batch_id) r.deposits
        + count_where (is_open_withdrawal batch_id) r.withdrawals)
      0
    then err record_not_found
    else ok (record r {
      deposits = update_where (is_open_deposit batch_id) (reopen_deposit reason) r.deposits;
      withdrawals =
          update_where (is_open_withdrawal batch_id) (reopen_withdrawal reason) r.withdrawals;
    })

-- `ReopenIncluded`
unfoldable pub reopen_included : Text → Text → Exec OffchainSettlementRepository (Unit {0})
reopen_included batch_id reason = do need_pool; in_transaction (reopened batch_id reason)
