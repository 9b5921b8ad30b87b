-- ===== src/Batch/Witness.antt =====
-- internal/batch/witness.go: the private witness of a batch.
pub mod Balance
use ganc_sys.Prelude.{
  ℕ, ◌+◌, ◌++◌, not, ◌&&◌, List, [], ◌∷◌, ◌==◌, Result, ok, err, require, replace_error,
  invalid_witness_inputs, eqb, if◌then◌else◌, Bool,
}
use ganc_sys.Prelude.Traverse.{traverse}
use ganc_sys.Prelude.Checked.{◌>>=◌, ◌>>◌}
use ganc_sys.Text.{Text, text_eq, codes, is_empty, trim_space}
use ganc_sys.Text.Decimal.{format}
use ganc_sys.Types.{DepositRecord, WitnessAccount, Witness}
use ganc_sys.State.Nullifier.{nullifier_for}
use ganc_sys.Batch.Settlement.{
  WithdrawalInput, SettlementInputs, parse_positive, parse_non_negative,
}

pub record AccountWitnessSecret : Type 0 where
  pub owner : Text
  pub user_secret : Text
  pub old_balance : Text
  pub new_balance : Text

pub record WitnessInputs : Type 0 where
  pub settlement : SettlementInputs
  pub accounts : List AccountWitnessSecret
  pub state_path : List Text

-- The loop that sums the owner's deposits.
unfoldable pub sum_deposits : Text → ℕ → List DepositRecord → Result ℕ
sum_deposits owner sum [] = ok sum
sum_deposits owner sum (d ∷ ds) =
    let skip = sum_deposits owner sum ds in
    let take = replace_error invalid_witness_inputs (parse_positive d.amount) >>= λ amt.
    sum_deposits owner (sum + amt) ds in
    if d.owner == owner then take else skip

-- What the loop over the withdrawals keeps of the owner's.
pub record OwnerWithdrawals : Type 0 where
  pub sum : ℕ
  pub last_nonce : Text
  pub entries : List WithdrawalInput

unfoldable pub collect_withdrawals :
    Text → OwnerWithdrawals → List WithdrawalInput → Result OwnerWithdrawals
collect_withdrawals owner found [] = ok found
collect_withdrawals owner found (w ∷ ws) =
    let skip = collect_withdrawals owner found ws in
    let take = replace_error invalid_witness_inputs (parse_positive w.request.amount) >>= λ amt.
    collect_withdrawals owner
      (record {
        sum = found.sum + amt;
        last_nonce = w.request.nonce;
        entries = found.entries ++ (w ∷ []);
      })
      ws in
    if w.request.owner == owner then take else skip

module _ (sha256 : Text → List ℕ) where
  -- The loop that derives each nullifier again.
  unfoldable pub check_nullifiers : Text → List WithdrawalInput → Result (Unit {0})
  check_nullifiers secret [] = ok tt
  check_nullifiers secret (w ∷ ws) = do
    nonce ← replace_error invalid_witness_inputs (parse_non_negative w.request.nonce)
    rederived ← replace_error invalid_witness_inputs (nullifier_for sha256 secret (format nonce))
    require (rederived == w.nullifier) invalid_witness_inputs
    check_nullifiers secret ws

  -- `nonceField`
  abbrev pub nonce_field : Text → Result Text
  nonce_field last_nonce = if is_empty last_nonce then ok (b'0' ∷ []) else (do
    n ← replace_error invalid_witness_inputs (parse_non_negative last_nonce)
    ok (format n))

  -- One round of the loop over the accounts.
  unfoldable pub witness_account : SettlementInputs → AccountWitnessSecret → Result WitnessAccount
  witness_account settlement acc = do
    let owner = trim_space acc.owner
    require (not (is_empty owner)) invalid_witness_inputs
    let secret = trim_space acc.user_secret
    require (not (is_empty secret)) invalid_witness_inputs
    old_bal ← replace_error invalid_witness_inputs (parse_non_negative acc.old_balance)
    new_bal ← replace_error invalid_witness_inputs (parse_non_negative acc.new_balance)
    sum_deposit ← sum_deposits owner 0 settlement.deposits
    found ←
        collect_withdrawals owner (record { sum = 0; last_nonce = []; entries = [] })
          settlement.withdrawals
    require (not (eqb sum_deposit 0 && eqb found.sum 0)) invalid_witness_inputs
    require (eqb (new_bal + found.sum) (old_bal + sum_deposit)) invalid_witness_inputs
    check_nullifiers secret found.entries
    nonce ← nonce_field found.last_nonce
    ok (record {
      owner = owner;
      user_secret = secret;
      nonce = nonce;
      old_balance = format old_bal;
      new_balance = format new_bal;
    })

  unfoldable pub witness_accounts :
      SettlementInputs → List AccountWitnessSecret → Result (List WitnessAccount)
  witness_accounts settlement = traverse (witness_account settlement)

  -- `Build`
  unfoldable pub build_witness : WitnessInputs → Result Witness
  build_witness input = elim (input.accounts) [
    | [] ↦ err invalid_witness_inputs
    | a ∷ rest ↦ (do
      out ← witness_accounts input.settlement (a ∷ rest)
      ok (record { accounts = out; state_path = input.state_path }))
  ]
