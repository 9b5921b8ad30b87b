-- ===== src/State/Manager.antt =====
-- internal/state/offchain_manager.go: the long-lived pending state. The mutex makes each method one
-- step. Values are immutable here, so a snapshot cannot be changed through the manager.
pub mod Requests
pub mod Rollback
use ganc_sys.Prelude.{ℕ, ◌+◌, ◌%◌, ◌^◌, Bool, List, [], ◌∷◌, Result, ok, err, Exec, if◌then◌else◌}
use ganc_sys.Prelude.Effects.{pure, modify, zoom, ◌>>=◌, ◌>>◌}
use ganc_sys.Dict.{Dict, insert, lookup, member, add}
use ganc_sys.Text.{Text, text_eq, is_empty}
use ganc_sys.Types.{Account, DepositRecord, WithdrawRequest}
use ganc_sys.State.Account.{
  AccountKey, key_eq, AccountState, new_account_key, or_zero, zero_account, snapshot,
}
use ganc_sys.State.Root.{compute_root}
use ganc_sys.State.Local.{
  LocalState, new_local_state_with_genesis_root, account, apply_deposit, apply_withdrawal,
}
use ganc_sys.State.Request.{WithdrawIntent, new_request_builder, build}

-- `gen` is a uint64.
pub record OffchainStateManager : Type 0 where
  pub ls : LocalState
  pub gen : ℕ

pub record Snapshot : Type 0 where
  pub root : Text
  pub accounts : Dict AccountKey Account
  pub applied_deposits : List Text
  pub applied_nullifiers : List Text
  pub gen : ℕ

-- `for k, v := range from { to[k] = v }`
unfoldable pub copy_into :
    Dict AccountKey Account → Dict AccountKey Account → Dict AccountKey Account
copy_into to [] = to
copy_into to ((k, v) ∷ from) = copy_into (insert k v to) from

-- `copyStrSet`
unfoldable pub copy_str_set : List Text → List Text
copy_str_set [] = []
copy_str_set (k ∷ s) = add k (copy_str_set s)

abbrev pub advance_gen : OffchainStateManager → OffchainStateManager
advance_gen m = record m { gen = (m.gen + 1) % 2 ^ 64 }

-- A method of `m.ls`.
abbrev pub on_ls : {A : Type 0} → Exec LocalState A → Exec OffchainStateManager A
on_ls = zoom (λ m. m.ls) (λ ls m. record m { ls = ls })

-- `Snapshot`
unfoldable pub take_snapshot : OffchainStateManager → Snapshot
unfolding copy_into copy_str_set
take_snapshot m = record {
  root = m.ls.root;
  accounts = copy_into [] m.ls.accounts.accounts;
  applied_deposits = copy_str_set m.ls.applied_deposits;
  applied_nullifiers = copy_str_set m.ls.applied_nullifiers;
  gen = m.gen;
}

-- `Snapshot.Account`
unfoldable pub snapshot_account : Text → Text → Snapshot → Account
snapshot_account owner denom snap = elim (new_account_key owner denom) [
  | err _ ↦ zero_account owner denom
  | ok key ↦ or_zero owner denom (lookup key snap.accounts)
]

-- `BuildWithdrawRequest`
unfoldable pub build_withdraw_request :
    WithdrawIntent → Text → OffchainStateManager → Result WithdrawRequest
build_withdraw_request intent withdraw_id m = elim (build intent m.ls new_request_builder).0 [
  | err e ↦ err e
  | ok req ↦ ok (record req { withdraw_id = withdraw_id })
]

module _ (sha256 : Text → List ℕ) where
  -- `NewOffchainStateManagerWithGenesisRoot`; an empty root is `NewOffchainStateManager`
  unfoldable pub new_manager : Text → OffchainStateManager
  new_manager genesis_root = record {
    ls = new_local_state_with_genesis_root sha256 genesis_root;
    gen = 0;
  }

  -- `ApplyDeposit`
  unfoldable pub manager_apply_deposit : DepositRecord → Exec OffchainStateManager Text
  manager_apply_deposit d = do root ← on_ls (apply_deposit sha256 d); modify advance_gen; pure root

  -- `ApplyWithdrawRequest`
  unfoldable pub manager_apply_withdraw_request :
      WithdrawRequest → Text → Exec OffchainStateManager Text
  manager_apply_withdraw_request req nullifier = do
    root ← on_ls (apply_withdrawal sha256 req nullifier)
    modify advance_gen
    pure root

  -- `NewLocalStateFromSnapshot`
  unfoldable pub new_local_state_from_snapshot : Snapshot → LocalState
  unfolding copy_into copy_str_set
  new_local_state_from_snapshot snap =
      let accounts : AccountState = record { accounts = copy_into [] snap.accounts } in
      record {
        accounts = accounts;
        root = if is_empty snap.root then compute_root sha256 (snapshot accounts) else snap.root;
        applied_deposits = copy_str_set snap.applied_deposits;
        applied_nullifiers = copy_str_set snap.applied_nullifiers;
      }

  -- `Rollback`
  unfoldable pub rollback : Snapshot → OffchainStateManager → OffchainStateManager
  unfolding new_local_state_from_snapshot
  rollback snap m = advance_gen (record m { ls = new_local_state_from_snapshot snap })
