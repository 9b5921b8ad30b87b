-- ===== src/Repository/Settlement.antt =====
-- internal/repository/offchain_settlement_repository.go, on the tables of
-- migrations/003_offchain_settlement.sql. A text column that is NULL reads back as the empty text, so an
-- empty batch id, which no caller passes, is not told from NULL. Each transaction is one step.
pub mod Batches
pub mod Reopen
use ganc_sys.Prelude.{
  ℕ, ◌+◌, Bool, true, false, ◌&&◌, ◌||◌, not, List, [], ◌∷◌, none, some, ◌==◌, Result, ok, err,
  Exec, eqb, other_failure, record_not_found, if◌then◌else◌,
}
use ganc_sys.Prelude.Effects.{lift, modify, gets, raise_if, ◌>>=◌, ◌>>◌}
use ganc_sys.Text.{Text, text_eq, codes, is_empty}
use ganc_sys.Repository.Sql.{select_where, update_where, count_where, upsert, update_each}

abbrev pub status_pending : Text
status_pending = codes "pending"

abbrev pub status_included : Text
status_included = codes "included"

abbrev pub status_committed : Text
status_committed = codes "committed"

abbrev pub status_failed : Text
status_failed = codes "failed"

abbrev pub status_claimed : Text
status_claimed = codes "claimed"

abbrev pub default_cursor_name : Text
default_cursor_name = codes "default"

pub record OffchainStateCursor : Type 0 where
  pub name : Text
  pub committed_root : Text
  pub pending_root : Text
  pub last_committed_batch_id : Text

pub record PendingDepositTransition : Type 0 where
  pub deposit_id : Text
  pub owner_address : Text
  pub denom : Text
  pub amount : Text
  pub root_before : Text
  pub root_after : Text
  pub balance_before : Text
  pub balance_after : Text
  pub status : Text
  pub batch_id : Text
  pub tx_hash : Text
  pub error_message : Text

pub record PendingWithdrawalTransition : Type 0 where
  pub withdraw_id : Text
  pub owner_address : Text
  pub denom : Text
  pub amount : Text
  pub destination_address : Text
  pub nonce : Text
  pub signature : Text
  pub nullifier : Text
  pub destination_hash : Text
  pub root_before : Text
  pub root_after : Text
  pub balance_before : Text
  pub balance_after : Text
  pub status : Text
  pub batch_id : Text
  pub tx_hash : Text
  pub error_message : Text

-- The repository: whether it has a pool of connections, and the tables behind it.
pub record OffchainSettlementRepository : Type 0 where
  pub has_pool : Bool
  pub cursors : List OffchainStateCursor
  pub deposits : List PendingDepositTransition
  pub withdrawals : List PendingWithdrawalTransition

abbrev pub or_default : Text → Text → Text
or_default fallback t = if is_empty t then fallback else t

-- `if r.dbPool == nil { return errors.New(…) }`
abbrev pub need_pool : Exec OffchainSettlementRepository (Unit {0})
need_pool r = raise_if (not r.has_pool) other_failure r

-- `WHERE name = $1`, the first row of it
unfoldable pub find_cursor : Text → List OffchainStateCursor → Result OffchainStateCursor
find_cursor name [] = err record_not_found
find_cursor name (c ∷ cs) = let rest = find_cursor name cs in if c.name == name then ok c else rest

-- `GetCursor`
unfoldable pub get_cursor : Text → Exec OffchainSettlementRepository OffchainStateCursor
get_cursor name = do
  need_pool
  λ r. lift (find_cursor (or_default default_cursor_name name) r.cursors) r

-- `UpsertCursor`
unfoldable pub upsert_cursor : OffchainStateCursor → Exec OffchainSettlementRepository (Unit {0})
upsert_cursor cursor = do
  need_pool
  let named = record cursor { name = or_default default_cursor_name cursor.name }
  modify (λ r. record r { cursors = upsert (λ c. c.name) named r.cursors })

-- The CHECK constraints on the column `status`.
abbrev pub is_deposit_status : Text → Bool
is_deposit_status s =
    s == status_pending || s == status_included || s == status_committed || s == status_failed

abbrev pub is_withdrawal_status : Text → Bool
is_withdrawal_status s = is_deposit_status s || s == status_claimed

-- `SavePendingDeposit`
unfoldable pub save_pending_deposit :
    PendingDepositTransition → Exec OffchainSettlementRepository (Unit {0})
save_pending_deposit transition = do
  need_pool
  let row = record transition { status = or_default status_pending transition.status }
  raise_if (not (is_deposit_status row.status)) other_failure
  modify (λ r. record r { deposits = upsert (λ d. d.deposit_id) row r.deposits })

-- A row that the unique index on `nullifier` keeps out.
abbrev pub breaks_nullifier_index :
    PendingWithdrawalTransition → List PendingWithdrawalTransition → Bool
breaks_nullifier_index row rows = not (
    eqb
      (count_where (λ w. w.nullifier == row.nullifier && not (w.withdraw_id == row.withdraw_id))
        rows)
      0)

-- `SavePendingWithdrawal`
unfoldable pub save_pending_withdrawal :
    PendingWithdrawalTransition → Exec OffchainSettlementRepository (Unit {0})
save_pending_withdrawal transition = do
  need_pool
  let row = record transition { status = or_default status_pending transition.status }
  raise_if (not (is_withdrawal_status row.status)) other_failure
  rows ← gets (λ r. r.withdrawals)
  raise_if (breaks_nullifier_index row rows) other_failure
  modify (λ r. record r { withdrawals = upsert (λ w. w.withdraw_id) row r.withdrawals })

-- `ListPendingDeposits`
unfoldable pub list_pending_deposits :
    Exec OffchainSettlementRepository (List PendingDepositTransition)
list_pending_deposits = do
  need_pool
  gets (λ r. select_where (λ d. d.status == status_pending) r.deposits)

-- `ListPendingWithdrawals`
unfoldable pub list_pending_withdrawals :
    Exec OffchainSettlementRepository (List PendingWithdrawalTransition)
list_pending_withdrawals = do
  need_pool
  gets (λ r. select_where (λ w. w.status == status_pending) r.withdrawals)
