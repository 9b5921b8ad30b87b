-- ===== src/State/Records.antt =====
-- The checks of a deposit record (local_state.go) and of a withdraw request (withdrawal.go).
use ganc_sys.Prelude.{
  not, Result, ok, invalid_deposit_record, invalid_withdraw_request, require, replace_error,
}
use ganc_sys.Prelude.Checked.{◌>>◌}
use ganc_sys.Text.{is_empty, trim_space}
use ganc_sys.Types.{DepositRecord, WithdrawRequest}
use ganc_sys.State.Account.{parse_positive_amount, parse_non_negative_amount}

-- `validateDeposit`
unfoldable pub validate_deposit : DepositRecord → Result (Unit {0})
validate_deposit d = do
  require (not (is_empty d.deposit_id)) invalid_deposit_record
  require (not (is_empty d.owner)) invalid_deposit_record
  require (not (is_empty d.denom)) invalid_deposit_record
  replace_error invalid_deposit_record (parse_positive_amount d.amount)
  ok tt

-- `validateWithdrawRequest`
unfoldable pub validate_withdraw_request : WithdrawRequest → Result (Unit {0})
validate_withdraw_request req = do
  require (not (is_empty (trim_space req.withdraw_id))) invalid_withdraw_request
  require (not (is_empty (trim_space req.owner))) invalid_withdraw_request
  require (not (is_empty (trim_space req.denom))) invalid_withdraw_request
  require (not (is_empty (trim_space req.destination))) invalid_withdraw_request
  replace_error invalid_withdraw_request (parse_positive_amount req.amount)
  replace_error invalid_withdraw_request (parse_non_negative_amount req.nonce)
  ok tt
