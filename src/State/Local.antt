-- ===== src/State/Local.antt =====
-- internal/state/local_state.go and withdrawal.go: the pending balances, the pending root, and the
-- identifiers that make deposits and withdrawals idempotent. The mutex makes each method one step.
pub mod Deposits
pub mod Withdrawals
pub mod Invariant
pub mod Supply
pub mod History
pub mod Replay
use ganc_sys.Prelude.{
  ℕ, ◌+◌, Bool, not, List, [], Exec, deposit_already_applied, invalid_withdraw_request,
  withdraw_already_applied, insufficient_balance, nonce_mismatch, ltb, eqb, replace_error,
  if◌then◌else◌,
}
use ganc_sys.Prelude.Effects.{lift, gets, modify, raise_if, zoom, ◌>>=◌, ◌>>◌}
use ganc_sys.Dict.{member, add}
use ganc_sys.Text.{Text, text_eq, is_empty, trim_space}
use ganc_sys.Types.{Account, DepositRecord, WithdrawRequest}
use ganc_sys.State.Account.{
  AccountState, new_account_state, get_or_zero, credit, debit, snapshot, parse_positive_amount,
  parse_non_negative_amount,
}
use ganc_sys.State.Root.{compute_root}
use ganc_sys.State.Records.{validate_deposit, validate_withdraw_request}

pub record LocalState : Type 0 where
  pub accounts : AccountState
  pub root : Text
  pub applied_deposits : List Text
  pub applied_nullifiers : List Text

-- A method of `s.accounts`.
abbrev pub on_accounts : {A : Type 0} → Exec AccountState A → Exec LocalState A
on_accounts = zoom (λ s. s.accounts) (λ a s. record s { accounts = a })

-- `Account`
unfoldable pub account : Text → Text → LocalState → Account
account owner denom s = get_or_zero owner denom s.accounts

-- `IsDepositApplied`
unfoldable pub is_deposit_applied : Text → LocalState → Bool
is_deposit_applied id s = member id s.applied_deposits

-- `IsNullifierApplied`
unfoldable pub is_nullifier_applied : Text → LocalState → Bool
is_nullifier_applied nullifier s =
    let nullifier' = trim_space nullifier in
    if is_empty nullifier' then Bool.false else member nullifier' s.applied_nullifiers

module _ (sha256 : Text → List ℕ) where
  -- `NewLocalState`
  unfoldable pub new_local_state : LocalState
  new_local_state = record {
    accounts = new_account_state;
    root = compute_root sha256 (snapshot new_account_state);
    applied_deposits = [];
    applied_nullifiers = [];
  }

  -- `NewLocalStateWithGenesisRoot`
  unfoldable pub new_local_state_with_genesis_root : Text → LocalState
  unfolding new_local_state
  new_local_state_with_genesis_root genesis_root =
      if is_empty genesis_root
      then new_local_state
      else record new_local_state { root = genesis_root }

  -- `s.root = ComputeRoot(s.accounts.Snapshot())`
  abbrev pub refresh_root : LocalState → LocalState
  refresh_root s = record s { root = compute_root sha256 (snapshot s.accounts) }

  -- `ApplyDeposit`
  unfoldable pub apply_deposit : DepositRecord → Exec LocalState Text
  apply_deposit d = do
    lift (validate_deposit d)
    seen ← gets (λ s. member d.deposit_id s.applied_deposits)
    raise_if seen deposit_already_applied
    on_accounts (credit d.owner d.denom d.amount)
    modify (λ s. record s { applied_deposits = add d.deposit_id s.applied_deposits })
    modify refresh_root
    gets (λ s. s.root)

  -- `ApplyWithdrawal`
  unfoldable pub apply_withdrawal : WithdrawRequest → Text → Exec LocalState Text
  apply_withdrawal req nullifier = do
    lift (validate_withdraw_request req)
    let nullifier' = trim_space nullifier
    raise_if (is_empty nullifier') invalid_withdraw_request
    amount ← lift (replace_error invalid_withdraw_request (parse_positive_amount req.amount))
    req_nonce ← lift (replace_error invalid_withdraw_request (parse_non_negative_amount req.nonce))
    let owner = trim_space req.owner
    let denom = trim_space req.denom
    seen ← gets (λ s. member nullifier' s.applied_nullifiers)
    raise_if seen withdraw_already_applied
    acc ← gets (λ s. get_or_zero owner denom s.accounts)
    bal ← lift (parse_non_negative_amount acc.balance)
    raise_if (ltb bal amount) insufficient_balance
    acc_nonce ← lift (parse_non_negative_amount acc.nonce)
    raise_if (not (eqb req_nonce (acc_nonce + 1))) nonce_mismatch
    on_accounts (debit owner denom req.amount)
    modify (λ s. record s { applied_nullifiers = add nullifier' s.applied_nullifiers })
    modify refresh_root
    gets (λ s. s.root)
