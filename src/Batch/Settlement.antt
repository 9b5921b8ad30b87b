-- ===== src/Batch/Settlement.antt =====
-- internal/batch/builder.go: the settlement update of a batch.
pub mod Amounts
pub mod Entries
pub mod Build
use ganc_sys.Prelude.{
  ℕ, ◌+◌, ◌%◌, ◌^◌, ◌++◌, Bool, not, ◌&&◌, none, some, List, [], ◌∷◌, ◌==◌, Result, ok, err, Exec,
  require, replace_error, invalid_settlement_inputs, other_failure, eqb, if◌then◌else◌,
}
use ganc_sys.Prelude.Traverse.{traverse}
use ganc_sys.Prelude.Checked.{◌>>=◌, ◌>>◌}
use ganc_sys.Text.{Text, text_eq, codes, is_empty, trim_space}
use ganc_sys.Text.Decimal.{pos, negsuc, set_string, format}
use ganc_sys.Hash.{is_hex_prefixed, strip_hex}
use ganc_sys.Types.{
  DepositRecord, WithdrawRequest, SettlementDeposit, SettlementWithdrawal, SettlementUpdate,
}
use ganc_sys.State.Address.{withdraw_address_hash}

pub record WithdrawalInput : Type 0 where
  pub request : WithdrawRequest
  pub nullifier : Text
  pub destination_hash : Text

pub record SettlementInputs : Type 0 where
  pub old_state_root : Text
  pub new_state_root : Text
  pub deposits : List DepositRecord
  pub withdrawals : List WithdrawalInput

-- `seq` is a uint64.
pub record SettlementUpdateBuilder : Type 0 where
  pub seq : ℕ

abbrev pub new_settlement_update_builder : SettlementUpdateBuilder
new_settlement_update_builder = record { seq = 0 }

unfoldable pub validate_root : Text → Result (Unit {0})
validate_root root = do
  let r = trim_space root
  require (not (is_empty r)) invalid_settlement_inputs
  require (is_hex_prefixed r) invalid_settlement_inputs
  require (not (is_empty (strip_hex r))) invalid_settlement_inputs

unfoldable pub validate_hex : Text → Result (Unit {0})
validate_hex value = do
  let v = trim_space value
  require (not (is_empty v)) invalid_settlement_inputs
  require (is_hex_prefixed v) invalid_settlement_inputs
  require (not (is_empty (strip_hex v))) invalid_settlement_inputs

unfoldable pub parse_non_negative : Text → Result ℕ
parse_non_negative amount =
    let s = trim_space amount in
    if is_empty s then err other_failure else elim (set_string s) [
      | none ↦ err other_failure
      | some (pos n) ↦ ok n
      | some (negsuc n) ↦ err other_failure
    ]

unfoldable pub parse_positive : Text → Result ℕ
parse_positive amount = do
  v ← parse_non_negative amount
  require (not (eqb v 0)) other_failure
  ok v

unfoldable pub validate_deposit : DepositRecord → Result ℕ
validate_deposit d = do
  require (not (is_empty (trim_space d.deposit_id))) invalid_settlement_inputs
  require (not (is_empty (trim_space d.owner))) invalid_settlement_inputs
  require (not (is_empty (trim_space d.denom))) invalid_settlement_inputs
  replace_error invalid_settlement_inputs (parse_positive d.amount)

unfoldable pub validate_withdraw : WithdrawRequest → Result ℕ
validate_withdraw w = do
  require (not (is_empty (trim_space w.withdraw_id))) invalid_settlement_inputs
  require (not (is_empty (trim_space w.owner))) invalid_settlement_inputs
  require (not (is_empty (trim_space w.denom))) invalid_settlement_inputs
  require (not (is_empty (trim_space w.destination))) invalid_settlement_inputs
  amt ← replace_error invalid_settlement_inputs (parse_positive w.amount)
  replace_error invalid_settlement_inputs (parse_non_negative w.nonce)
  ok amt

-- A denom that is not blank.
abbrev pub checked_denom : Text → Result Text
checked_denom raw =
    let denom = trim_space raw in if is_empty denom then err invalid_settlement_inputs else ok denom

-- `pickBatchDenom`; the last clause is the batch without entries, which `Build` has refused before.
unfoldable pub pick_batch_denom : List DepositRecord → List WithdrawalInput → Result Text
pick_batch_denom (d ∷ ds) ws = checked_denom d.denom
pick_batch_denom [] (w ∷ ws) = checked_denom w.request.denom
pick_batch_denom [] [] = err invalid_settlement_inputs

-- One round of the loop over the deposits.
unfoldable pub settle_deposit : Text → DepositRecord → Result SettlementDeposit
settle_deposit denom d = do
  amt ← validate_deposit d
  require (d.denom == denom) invalid_settlement_inputs
  ok (record { deposit_id = d.deposit_id; owner = d.owner; denom = d.denom; amount = format amt })

unfoldable pub settle_deposits : Text → List DepositRecord → Result (List SettlementDeposit)
settle_deposits denom = traverse (settle_deposit denom)

module _ (sha256 : Text → List ℕ) where
  -- One round of the loop over the withdrawals.
  unfoldable pub settle_withdrawal : Text → WithdrawalInput → Result SettlementWithdrawal
  settle_withdrawal denom w = do
    amt ← validate_withdraw w.request
    require (w.request.denom == denom) invalid_settlement_inputs
    validate_hex w.nullifier
    validate_hex w.destination_hash
    rederived ←
        replace_error invalid_settlement_inputs (withdraw_address_hash sha256 w.request.destination)
    require (rederived == w.destination_hash) invalid_settlement_inputs
    ok (record {
      withdraw_id = w.request.withdraw_id;
      owner = w.request.owner;
      denom = w.request.denom;
      amount = format amt;
      destination = w.request.destination;
      destination_hash = w.destination_hash;
      nullifier = w.nullifier;
    })

  unfoldable pub settle_withdrawals :
      Text → List WithdrawalInput → Result (List SettlementWithdrawal)
  settle_withdrawals denom = traverse (settle_withdrawal denom)

  abbrev pub no_entries : SettlementInputs → Bool
  no_entries input = elim (input.deposits) [
    | [] ↦ elim (input.withdrawals) [ [] ↦ Bool.true | _ ∷ _ ↦ Bool.false ]
    | _ ∷ _ ↦ Bool.false
  ]

  -- What `Build` checks before it takes a batch id.
  unfoldable pub check_inputs :
      SettlementInputs → Result (List SettlementDeposit × List SettlementWithdrawal)
  check_inputs input = do
    validate_root input.old_state_root
    validate_root input.new_state_root
    require (not (input.old_state_root == input.new_state_root)) invalid_settlement_inputs
    require (not (no_entries input)) invalid_settlement_inputs
    denom ← pick_batch_denom input.deposits input.withdrawals
    deposits ← settle_deposits denom input.deposits
    withdrawals ← settle_withdrawals denom input.withdrawals
    ok (deposits, withdrawals)

  -- `Build`
  unfoldable pub build_settlement : SettlementInputs → Exec SettlementUpdateBuilder SettlementUpdate
  build_settlement input b = elim (check_inputs input) [
    | err e ↦ (err e, b)
    | ok (deposits, withdrawals) ↦
        let seq = (b.seq + 1) % 2 ^ 64 in
        (
          ok (record {
            batch_id = codes "batch-" ++ format seq;
            old_state_root = input.old_state_root;
            new_state_root = input.new_state_root;
            deposits = deposits;
            withdrawals = withdrawals;
          }),
          record b { seq = seq },
        )
  ]
