-- ===== src/Store.antt =====
-- internal/store/memory_store.go: the in-memory tables behind the dashboard. The mutex makes each
-- method one step. Values are immutable here, so the clone functions are not needed.
pub mod Balances
pub mod Tables
pub mod Refinement
pub mod Conservation
pub mod Bounds
use ganc_sys.Prelude.{ℕ, ◌+◌, true, List, [], ◌∷◌, ◌++◌, Option, none, some, ◌==◌, if◌then◌else◌}
use ganc_sys.Dict.{Dict, lookup, insert}
use ganc_sys.Text.{Text, text_eq, codes}
use ganc_sys.Text.Int64.{add64}
use ganc_sys.Types.{
  DepositRecord, WithdrawRequest, WithdrawRecord, SettlementUpdate, BatchCommitments, ProofBundle,
  AppState, BalanceSnapshot,
}
use ganc_sys.Store.Balances.{credit_balance, debit_balance}
use ganc_sys.Store.Tables.{note_id, in_order}

-- `nextWithdrawSeq` is an int, by its 64-bit word.
pub record MemoryStore : Type 0 where
  pub app_state : AppState
  pub deposits : Dict Text DepositRecord
  pub deposit_order : List Text
  pub withdraw_requests : Dict Text WithdrawRequest
  pub withdraw_request_order : List Text
  pub next_withdraw_seq : ℕ
  pub withdraw_records : Dict Text WithdrawRecord
  pub withdraw_record_order : List Text

-- `NewMemoryStore`
unfoldable pub new_memory_store : MemoryStore
new_memory_store = record {
  app_state = record {
    mode = codes "local";
    current_state_root = codes "0xrootA";
    user_balances = (codes "cosmos1alice/uusdc", codes "1000") ∷ [];
    module_account_balance = (codes "uusdc", codes "0") ∷ [];
    latest_deposit = none;
    latest_withdraw_request = none;
    latest_settlement = none;
    latest_batch_commitments = none;
    latest_proof = none;
    latest_withdraw_records = [];
    proof_status = codes "idle";
    deposit_status = codes "none";
    withdraw_status = codes "none";
    batch_status = codes "none";
  };
  deposits = [];
  deposit_order = [];
  withdraw_requests = [];
  withdraw_request_order = [];
  next_withdraw_seq = 1;
  withdraw_records = [];
  withdraw_record_order = [];
}

-- `owner + "/" + denom`
abbrev pub user_key : Text → Text → Text
user_key owner denom = owner ++ codes "/" ++ denom

-- `SaveDeposit`
unfoldable pub save_deposit : DepositRecord → MemoryStore → MemoryStore
save_deposit r s = record s {
  deposit_order = note_id r.deposit_id s.deposits s.deposit_order;
  deposits = insert r.deposit_id r s.deposits;
  app_state = record s.app_state {
    latest_deposit = some r;
    deposit_status = codes "indexed";
    user_balances = debit_balance (user_key r.owner r.denom) r.amount s.app_state.user_balances;
    module_account_balance = credit_balance r.denom r.amount s.app_state.module_account_balance;
  };
}

-- `GetDeposit`
abbrev pub get_deposit : Text → MemoryStore → Option DepositRecord
get_deposit deposit_id s = lookup deposit_id s.deposits

-- `ListDeposits`
unfoldable pub list_deposits : MemoryStore → List DepositRecord
list_deposits s = in_order s.deposits s.deposit_order

-- `NextWithdrawSequence`
unfoldable pub next_withdraw_sequence : MemoryStore → ℕ × MemoryStore
next_withdraw_sequence s =
    (s.next_withdraw_seq, record s { next_withdraw_seq = add64 s.next_withdraw_seq 1 })

-- `SaveWithdrawRequest`
unfoldable pub save_withdraw_request : WithdrawRequest → MemoryStore → MemoryStore
save_withdraw_request r s = record s {
  withdraw_request_order = note_id r.withdraw_id s.withdraw_requests s.withdraw_request_order;
  withdraw_requests = insert r.withdraw_id r s.withdraw_requests;
  app_state = record s.app_state {
    latest_withdraw_request = some r;
    withdraw_status = codes "requested";
  };
}

-- `GetWithdrawRequest`
abbrev pub get_withdraw_request : Text → MemoryStore → Option WithdrawRequest
get_withdraw_request withdraw_id s = lookup withdraw_id s.withdraw_requests

-- `ListWithdrawRequests`
unfoldable pub list_withdraw_requests : MemoryStore → List WithdrawRequest
list_withdraw_requests s = in_order s.withdraw_requests s.withdraw_request_order

-- `SaveBatchBuild`
unfoldable pub save_batch_build : SettlementUpdate → BatchCommitments → MemoryStore → MemoryStore
save_batch_build update commitments s = record s {
  app_state = record s.app_state {
    latest_settlement = some update;
    latest_batch_commitments = some commitments;
    batch_status = codes "built";
    proof_status = codes "idle";
    withdraw_status = codes "batchBuilt";
  };
}

-- `SaveProofBundle`
unfoldable pub save_proof_bundle : ProofBundle → MemoryStore → MemoryStore
save_proof_bundle bundle s = record s {
  app_state = record s.app_state { latest_proof = some bundle; proof_status = codes "ready" };
}

-- `SaveWithdrawRecord`
unfoldable pub save_withdraw_record : WithdrawRecord → MemoryStore → MemoryStore
save_withdraw_record r s = record s {
  withdraw_record_order = note_id r.withdraw_id s.withdraw_records s.withdraw_record_order;
  withdraw_records = insert r.withdraw_id r s.withdraw_records;
}

-- The loop of `SaveBatchSubmitted`; a round does what `SaveWithdrawRecord` does.
unfoldable pub save_withdraw_records : List WithdrawRecord → MemoryStore → MemoryStore
unfolding save_withdraw_record
save_withdraw_records [] s = s
save_withdraw_records (r ∷ rs) s = save_withdraw_records rs (save_withdraw_record r s)

-- `SaveBatchSubmitted`
unfoldable pub save_batch_submitted :
    SettlementUpdate → BatchCommitments → List WithdrawRecord → MemoryStore → MemoryStore
unfolding save_withdraw_records
save_batch_submitted update commitments records s =
    let saved = save_withdraw_records records s in
    record saved {
      app_state = record saved.app_state {
        current_state_root = update.new_state_root;
        latest_settlement = some update;
        latest_batch_commitments = some commitments;
        latest_withdraw_records = records;
        deposit_status = codes "processed";
        proof_status = codes "accepted";
        withdraw_status = codes "readyToClaim";
        batch_status = codes "accepted";
      };
    }

-- `GetWithdrawRecord`
abbrev pub get_withdraw_record : Text → MemoryStore → Option WithdrawRecord
get_withdraw_record withdraw_id s = lookup withdraw_id s.withdraw_records

-- The loop of `ClaimWithdrawRecord`: the first record with the id is replaced.
unfoldable pub replace_latest : Text → WithdrawRecord → List WithdrawRecord → List WithdrawRecord
replace_latest withdraw_id r [] = []
replace_latest withdraw_id r (l ∷ ls) =
    if l.withdraw_id == withdraw_id then r ∷ ls else l ∷ replace_latest withdraw_id r ls

-- What `ClaimWithdrawRecord` does with a record that it found.
unfoldable pub claim_found : Text → WithdrawRecord → MemoryStore → MemoryStore
claim_found withdraw_id r s = record s {
  withdraw_records = insert withdraw_id r s.withdraw_records;
  app_state = record s.app_state {
    latest_withdraw_records = replace_latest withdraw_id r s.app_state.latest_withdraw_records;
    user_balances =
        credit_balance (user_key r.destination r.denom) r.amount s.app_state.user_balances;
    module_account_balance = debit_balance r.denom r.amount s.app_state.module_account_balance;
    withdraw_status = codes "claimed";
  };
}

-- The rest of `ClaimWithdrawRecord`, behind the lookup.
unfoldable pub claim_entry :
    Text → Option WithdrawRecord → MemoryStore → Option WithdrawRecord × MemoryStore
unfolding claim_found
claim_entry withdraw_id none s = (none, s)
claim_entry withdraw_id (some r) s =
    let claimed = record r { claimed = true } in (some claimed, claim_found withdraw_id claimed s)

-- `ClaimWithdrawRecord`
unfoldable pub claim_withdraw_record : Text → MemoryStore → Option WithdrawRecord × MemoryStore
claim_withdraw_record withdraw_id s =
    claim_entry withdraw_id (lookup withdraw_id s.withdraw_records) s

-- `ListWithdrawRecords`
unfoldable pub list_withdraw_records : MemoryStore → List WithdrawRecord
list_withdraw_records s = in_order s.withdraw_records s.withdraw_record_order

-- `GetBalanceSnapshot`
abbrev pub get_balance_snapshot : MemoryStore → BalanceSnapshot
get_balance_snapshot s = record {
  user_balances = s.app_state.user_balances;
  module_account_balance = s.app_state.module_account_balance;
}
