-- ===== src/Service/Deposit.antt =====
-- internal/service/deposit_service.go: deposits on the chain, and their records.
-- The chain client is a parameter: what it answers to one deposit.
pub mod Local
use ganc_sys.Prelude.{Bool, List, Option, Result, Exec, ℕ}
use ganc_sys.Prelude.Effects.{◌>>=◌, lift, pure}
use ganc_sys.Text.{Text, codes}
use ganc_sys.Types.{DepositRecord}
use ganc_sys.Store.{MemoryStore}
use ganc_sys.Repository.Deposit.{DepositRepository, get_deposit_record, list_deposit_records}
use ganc_sys.Chain.{DepositRequest, TxResult}
use ganc_sys.Indexer.{IndexState, index_deposit_from_tx}

-- `types.DepositResponse`; its `State` is a constant.
pub record DepositResponse : Type 0 where
  pub tx_hash : Text
  pub deposit_record : DepositRecord
  pub current_state_root : Text

module _ (sha256 : Text → List ℕ) (has_applier : Bool) where
  -- `CreateDeposit`
  unfoldable pub create_deposit :
      (DepositRequest → Result TxResult) → DepositRequest → Exec IndexState DepositResponse
  create_deposit chain req = do
    tx ← lift (chain req)
    r ← index_deposit_from_tx sha256 has_applier tx
    pure (record { tx_hash = tx.tx_hash; deposit_record = r; current_state_root = codes "0xrootA" })

-- `GetDeposit` and `ListDeposits`
abbrev pub get_deposit_response :
    DepositRepository
    → (Text → Result (Option DepositRecord))
    → Text
    → MemoryStore
    → Result DepositRecord
get_deposit_response = get_deposit_record

abbrev pub list_deposits_response : MemoryStore → List DepositRecord
list_deposits_response = list_deposit_records
