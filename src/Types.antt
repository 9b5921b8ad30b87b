-- ===== src/Types.antt =====
-- pkg/types: the records that the packages exchange.
use ganc_sys.Prelude.{ℕ, Bool, List, Option}
use ganc_sys.Dict.{Dict}
use ganc_sys.Text.{Text}

pub record Account : Type 0 where
  pub owner : Text
  pub denom : Text
  pub balance : Text
  pub nonce : Text

pub record DepositRecord : Type 0 where
  pub deposit_id : Text
  pub owner : Text
  pub denom : Text
  pub amount : Text
  pub processed : Bool
  pub created_height : ℕ
  pub tx_hash : Text

pub record WithdrawRequest : Type 0 where
  pub withdraw_id : Text
  pub owner : Text
  pub denom : Text
  pub amount : Text
  pub destination : Text
  pub nonce : Text
  pub signature : Text

pub record WithdrawRecord : Type 0 where
  pub withdraw_id : Text
  pub owner : Text
  pub denom : Text
  pub amount : Text
  pub destination : Text
  pub nullifier : Text
  pub claimed : Bool

pub record SettlementDeposit : Type 0 where
  pub deposit_id : Text
  pub owner : Text
  pub denom : Text
  pub amount : Text

pub record SettlementWithdrawal : Type 0 where
  pub withdraw_id : Text
  pub owner : Text
  pub denom : Text
  pub amount : Text
  pub destination : Text
  pub destination_hash : Text
  pub nullifier : Text

pub record SettlementUpdate : Type 0 where
  pub batch_id : Text
  pub old_state_root : Text
  pub new_state_root : Text
  pub deposits : List SettlementDeposit
  pub withdrawals : List SettlementWithdrawal

pub record BatchCommitments : Type 0 where
  pub deposits_root : Text
  pub withdrawals_root : Text
  pub nullifiers_root : Text
  pub withdraw_outputs_root : Text

pub record WitnessAccount : Type 0 where
  pub owner : Text
  pub user_secret : Text
  pub nonce : Text
  pub old_balance : Text
  pub new_balance : Text

pub record Witness : Type 0 where
  pub accounts : List WitnessAccount
  pub state_path : List Text

pub record ProofBundle : Type 0 where
  pub proof : Text
  pub public_inputs : List Text
  pub verification_key_id : Text

-- A pointer is an `Option`.
pub record AppState : Type 0 where
  pub mode : Text
  pub current_state_root : Text
  pub user_balances : Dict Text Text
  pub module_account_balance : Dict Text Text
  pub latest_deposit : Option DepositRecord
  pub latest_withdraw_request : Option WithdrawRequest
  pub latest_settlement : Option SettlementUpdate
  pub latest_batch_commitments : Option BatchCommitments
  pub latest_proof : Option ProofBundle
  pub latest_withdraw_records : List WithdrawRecord
  pub proof_status : Text
  pub deposit_status : Text
  pub withdraw_status : Text
  pub batch_status : Text

pub record BalanceSnapshot : Type 0 where
  pub user_balances : Dict Text Text
  pub module_account_balance : Dict Text Text
