-- ===== src/Tests/State.antt =====
-- Runs of the state, and the theorems about it applied.
use mathlib.Core.List.{Perm, Permᴰ}
use ganc_sys.Prelude.{
  ℕ, ◌+◌, ◌≡◌, ◌↔◌, refl, false, List, [], ◌∷◌, ok, err, ◌⊎◌, insufficient_balance,
  deposit_already_applied, withdraw_already_applied,
}
use ganc_sys.Dict.{member}
use ganc_sys.Text.{Text, text_eq, codes, is_empty, trim_space}
use ganc_sys.Types.{Account, DepositRecord}
use ganc_sys.Hash.{sha256_hex}
use ganc_sys.State.Account.{AccountKey, AccountState, snapshot, parse_non_negative_amount}
use ganc_sys.State.Account.Valid.{IsValid}
use ganc_sys.State.Account.Ledger.{nonce_of}
use ganc_sys.State.Account.Sorting.{snapshot-perm}
use ganc_sys.State.Root.{compute_root}
use ganc_sys.State.Records.{validate_deposit, validate_withdraw_request}
use ganc_sys.State.Local.{LocalState, apply_deposit, apply_withdrawal, account}
use ganc_sys.State.Local.Withdrawals.{IsWithdrawable}
use ganc_sys.State.Local.Invariant.{
  new_local_state-IsValid, apply_deposit-IsValid, apply_withdrawal_iff,
}
use ganc_sys.State.Local.Supply.{supply}
use ganc_sys.State.Local.History.{
  Op, deposit, withdraw, units_in, units_out, withdrawals_of, step, run, tally, run-supply,
  run-IsValid, run-nonce, step-refused,
}
use ganc_sys.State.Local.Replay.{deposit_applied_once, nullifier_spent_once}
use ganc_sys.State.Nullifier.{nullifier_preimage, nullifier_for}
use ganc_sys.State.Nullifier.Binding.{IsCollision, nullifier_for_binds}
use ganc_sys.State.Request.{WithdrawIntent, build}
use ganc_sys.State.Manager.{
  OffchainStateManager, take_snapshot, rollback, build_withdraw_request,
  manager_apply_withdraw_request,
}
use ganc_sys.State.Manager.Rollback.{SameState, rollback-take_snapshot}
use ganc_sys.State.Manager.Requests.{built_request_is_accepted}
use ganc_sys.Tests.Data.{
  length_digest, length_digest-IsDigest, alice, usdc, alice_usdc, deposit_100, withdraw_40,
  nullifier_1, genesis,
}

genesis-IsValid : IsValid genesis.accounts
genesis-IsValid = new_local_state-IsValid length_digest []

abbrev history : List Op
history = deposit deposit_100 ∷ withdraw withdraw_40 nullifier_1 ∷ []

sixty_left : supply usdc (run length_digest history genesis).accounts ≡ 60
unfolding supply run step apply_withdrawal ganc_sys.State.Records.validate_withdraw_request
    trim_space ganc_sys.State.Account.parse_positive_amount
    ganc_sys.State.Account.parse_non_negative_amount ganc_sys.Text.Decimal.set_string member
    apply_deposit ganc_sys.State.Records.validate_deposit
    ganc_sys.State.Local.new_local_state_with_genesis_root ganc_sys.State.Account.credit
    ganc_sys.State.Account.new_account_key ganc_sys.Dict.lookup ganc_sys.State.Account.get_or_zero
    ganc_sys.Dict.add ganc_sys.Dict.insert ganc_sys.Hash.hex_digit ganc_sys.Hash.hex_encode
    ganc_sys.Hash.sha256_hex ganc_sys.State.Account.Valid.amount_of
    ganc_sys.State.Account.account_before ganc_sys.State.Account.debit
    ganc_sys.State.Account.entry_or_zero ganc_sys.State.Account.get ganc_sys.State.Account.key_beq
    ganc_sys.State.Account.put ganc_sys.State.Account.snapshot ganc_sys.State.Account.sort_accounts
    ganc_sys.State.Account.values ganc_sys.State.Json.marshal_accounts
    ganc_sys.State.Local.new_local_state ganc_sys.State.Root.compute_root ganc_sys.Text.Decimal.emit
    ganc_sys.Text.Decimal.format ganc_sys.Text.Decimal.is_digit ganc_sys.Text.Decimal.negate
    ganc_sys.Text.Decimal.scan ganc_sys.Text.Decimal.scan_digits ganc_sys.Text.Order.text_ltb
    ganc_sys.Text.is_space ganc_sys.Text.text_beq
sixty_left = refl

run-supply_example :
    supply usdc (run length_digest history genesis).accounts
      + tally length_digest (units_out usdc) history genesis
    ≡ supply usdc genesis.accounts + tally length_digest (units_in usdc) history genesis
run-supply_example = run-supply length_digest usdc history genesis genesis-IsValid

run-IsValid_example : IsValid (run length_digest history genesis).accounts
run-IsValid_example = run-IsValid length_digest history genesis genesis-IsValid

run-nonce_example :
    nonce_of alice_usdc (run length_digest history genesis).accounts
    ≡ nonce_of alice_usdc genesis.accounts
      + tally length_digest (withdrawals_of alice_usdc) history genesis
run-nonce_example = run-nonce length_digest alice_usdc history genesis genesis-IsValid

deposit_ok :
    (apply_deposit length_digest deposit_100 genesis).0
    ≡ ok (apply_deposit length_digest deposit_100 genesis).1.root
unfolding supply run step apply_withdrawal ganc_sys.State.Records.validate_withdraw_request
    trim_space ganc_sys.State.Account.parse_positive_amount
    ganc_sys.State.Account.parse_non_negative_amount ganc_sys.Text.Decimal.set_string member
    apply_deposit ganc_sys.State.Records.validate_deposit
    ganc_sys.State.Local.new_local_state_with_genesis_root ganc_sys.State.Account.credit
    ganc_sys.State.Account.new_account_key ganc_sys.Dict.lookup ganc_sys.State.Account.get_or_zero
    ganc_sys.Dict.add ganc_sys.Dict.insert ganc_sys.Hash.hex_digit ganc_sys.Hash.hex_encode
    ganc_sys.Hash.sha256_hex ganc_sys.State.Account.Valid.amount_of
    ganc_sys.State.Account.account_before ganc_sys.State.Account.debit
    ganc_sys.State.Account.entry_or_zero ganc_sys.State.Account.get ganc_sys.State.Account.key_beq
    ganc_sys.State.Account.put ganc_sys.State.Account.snapshot ganc_sys.State.Account.sort_accounts
    ganc_sys.State.Account.values ganc_sys.State.Json.marshal_accounts
    ganc_sys.State.Local.new_local_state ganc_sys.State.Root.compute_root ganc_sys.Text.Decimal.emit
    ganc_sys.Text.Decimal.format ganc_sys.Text.Decimal.is_digit ganc_sys.Text.Decimal.negate
    ganc_sys.Text.Decimal.scan ganc_sys.Text.Decimal.scan_digits ganc_sys.Text.Order.text_ltb
    ganc_sys.Text.is_space ganc_sys.Text.text_beq
deposit_ok = refl

abbrev funded : LocalState
funded = (apply_deposit length_digest deposit_100 genesis).1

funded-IsValid : IsValid funded.accounts
funded-IsValid = apply_deposit-IsValid length_digest deposit_100 genesis genesis-IsValid

deposit_well_formed : validate_deposit deposit_100 ≡ ok tt
unfolding supply run step apply_withdrawal ganc_sys.State.Records.validate_withdraw_request
    trim_space ganc_sys.State.Account.parse_positive_amount
    ganc_sys.State.Account.parse_non_negative_amount ganc_sys.Text.Decimal.set_string member
    apply_deposit ganc_sys.State.Records.validate_deposit
    ganc_sys.State.Local.new_local_state_with_genesis_root ganc_sys.State.Account.credit
    ganc_sys.State.Account.new_account_key ganc_sys.Dict.lookup ganc_sys.State.Account.get_or_zero
    ganc_sys.Dict.add ganc_sys.Dict.insert ganc_sys.Hash.hex_digit ganc_sys.Hash.hex_encode
    ganc_sys.Hash.sha256_hex ganc_sys.State.Account.Valid.amount_of
    ganc_sys.State.Account.account_before ganc_sys.State.Account.debit
    ganc_sys.State.Account.entry_or_zero ganc_sys.State.Account.get ganc_sys.State.Account.key_beq
    ganc_sys.State.Account.put ganc_sys.State.Account.snapshot ganc_sys.State.Account.sort_accounts
    ganc_sys.State.Account.values ganc_sys.State.Json.marshal_accounts
    ganc_sys.State.Local.new_local_state ganc_sys.State.Root.compute_root ganc_sys.Text.Decimal.emit
    ganc_sys.Text.Decimal.format ganc_sys.Text.Decimal.is_digit ganc_sys.Text.Decimal.negate
    ganc_sys.Text.Decimal.scan ganc_sys.Text.Decimal.scan_digits ganc_sys.Text.Order.text_ltb
    ganc_sys.Text.is_space ganc_sys.Text.text_beq
deposit_well_formed = refl

deposit_applied_once_example :
    apply_deposit length_digest deposit_100
      (run length_digest (withdraw withdraw_40 nullifier_1 ∷ []) funded)
    ≡ (
      err deposit_already_applied,
      run length_digest (withdraw withdraw_40 nullifier_1 ∷ []) funded,
    )
deposit_applied_once_example =
    deposit_applied_once length_digest deposit_100 deposit_100
      (withdraw withdraw_40 nullifier_1 ∷ []) genesis genesis-IsValid deposit_ok refl
      deposit_well_formed

withdrawal_ok :
    (apply_withdrawal length_digest withdraw_40 nullifier_1 funded).0
    ≡ ok (apply_withdrawal length_digest withdraw_40 nullifier_1 funded).1.root
unfolding supply run step apply_withdrawal ganc_sys.State.Records.validate_withdraw_request
    trim_space ganc_sys.State.Account.parse_positive_amount
    ganc_sys.State.Account.parse_non_negative_amount ganc_sys.Text.Decimal.set_string member
    apply_deposit ganc_sys.State.Records.validate_deposit
    ganc_sys.State.Local.new_local_state_with_genesis_root ganc_sys.State.Account.credit
    ganc_sys.State.Account.new_account_key ganc_sys.Dict.lookup ganc_sys.State.Account.get_or_zero
    ganc_sys.Dict.add ganc_sys.Dict.insert ganc_sys.Hash.hex_digit ganc_sys.Hash.hex_encode
    ganc_sys.Hash.sha256_hex ganc_sys.State.Account.Valid.amount_of
    ganc_sys.State.Account.account_before ganc_sys.State.Account.debit
    ganc_sys.State.Account.entry_or_zero ganc_sys.State.Account.get ganc_sys.State.Account.key_beq
    ganc_sys.State.Account.put ganc_sys.State.Account.snapshot ganc_sys.State.Account.sort_accounts
    ganc_sys.State.Account.values ganc_sys.State.Json.marshal_accounts
    ganc_sys.State.Local.new_local_state ganc_sys.State.Root.compute_root ganc_sys.Text.Decimal.emit
    ganc_sys.Text.Decimal.format ganc_sys.Text.Decimal.is_digit ganc_sys.Text.Decimal.negate
    ganc_sys.Text.Decimal.scan ganc_sys.Text.Decimal.scan_digits ganc_sys.Text.Order.text_ltb
    ganc_sys.Text.is_space ganc_sys.Text.text_beq
withdrawal_ok = refl

withdrawal_well_formed : validate_withdraw_request withdraw_40 ≡ ok tt
unfolding supply run step apply_withdrawal ganc_sys.State.Records.validate_withdraw_request
    trim_space ganc_sys.State.Account.parse_positive_amount
    ganc_sys.State.Account.parse_non_negative_amount ganc_sys.Text.Decimal.set_string member
    apply_deposit ganc_sys.State.Records.validate_deposit
    ganc_sys.State.Local.new_local_state_with_genesis_root ganc_sys.State.Account.credit
    ganc_sys.State.Account.new_account_key ganc_sys.Dict.lookup ganc_sys.State.Account.get_or_zero
    ganc_sys.Dict.add ganc_sys.Dict.insert ganc_sys.Hash.hex_digit ganc_sys.Hash.hex_encode
    ganc_sys.Hash.sha256_hex ganc_sys.State.Account.Valid.amount_of
    ganc_sys.State.Account.account_before ganc_sys.State.Account.debit
    ganc_sys.State.Account.entry_or_zero ganc_sys.State.Account.get ganc_sys.State.Account.key_beq
    ganc_sys.State.Account.put ganc_sys.State.Account.snapshot ganc_sys.State.Account.sort_accounts
    ganc_sys.State.Account.values ganc_sys.State.Json.marshal_accounts
    ganc_sys.State.Local.new_local_state ganc_sys.State.Root.compute_root ganc_sys.Text.Decimal.emit
    ganc_sys.Text.Decimal.format ganc_sys.Text.Decimal.is_digit ganc_sys.Text.Decimal.negate
    ganc_sys.Text.Decimal.scan ganc_sys.Text.Decimal.scan_digits ganc_sys.Text.Order.text_ltb
    ganc_sys.Text.is_space ganc_sys.Text.text_beq
withdrawal_well_formed = refl

nullifier_spent_once_example :
    apply_withdrawal length_digest withdraw_40 nullifier_1
      (run length_digest [] (apply_withdrawal length_digest withdraw_40 nullifier_1 funded).1)
    ≡ (
      err withdraw_already_applied,
      run length_digest [] (apply_withdrawal length_digest withdraw_40 nullifier_1 funded).1,
    )
nullifier_spent_once_example =
    nullifier_spent_once length_digest withdraw_40 withdraw_40 nullifier_1 nullifier_1 [] funded
      funded-IsValid withdrawal_ok refl withdrawal_well_formed

apply_withdrawal_iff_example :
    ((root : Text) × ((apply_withdrawal length_digest withdraw_40 nullifier_1 funded).0 ≡ ok root))
    ↔ ((k : AccountKey) × (a : ℕ) × IsWithdrawable withdraw_40 nullifier_1 k a funded)
apply_withdrawal_iff_example =
    apply_withdrawal_iff length_digest withdraw_40 nullifier_1 funded funded-IsValid

uncovered :
    (step length_digest (withdraw withdraw_40 nullifier_1) genesis).0 ≡ err insufficient_balance
unfolding supply run step apply_withdrawal ganc_sys.State.Records.validate_withdraw_request
    trim_space ganc_sys.State.Account.parse_positive_amount
    ganc_sys.State.Account.parse_non_negative_amount ganc_sys.Text.Decimal.set_string member
    apply_deposit ganc_sys.State.Records.validate_deposit
    ganc_sys.State.Local.new_local_state_with_genesis_root ganc_sys.State.Account.credit
    ganc_sys.State.Account.new_account_key ganc_sys.Dict.lookup ganc_sys.State.Account.get_or_zero
    ganc_sys.Dict.add ganc_sys.Dict.insert ganc_sys.Hash.hex_digit ganc_sys.Hash.hex_encode
    ganc_sys.Hash.sha256_hex ganc_sys.State.Account.Valid.amount_of
    ganc_sys.State.Account.account_before ganc_sys.State.Account.debit
    ganc_sys.State.Account.entry_or_zero ganc_sys.State.Account.get ganc_sys.State.Account.key_beq
    ganc_sys.State.Account.put ganc_sys.State.Account.snapshot ganc_sys.State.Account.sort_accounts
    ganc_sys.State.Account.values ganc_sys.State.Json.marshal_accounts
    ganc_sys.State.Local.new_local_state ganc_sys.State.Root.compute_root ganc_sys.Text.Decimal.emit
    ganc_sys.Text.Decimal.format ganc_sys.Text.Decimal.is_digit ganc_sys.Text.Decimal.negate
    ganc_sys.Text.Decimal.scan ganc_sys.Text.Decimal.scan_digits ganc_sys.Text.Order.text_ltb
    ganc_sys.Text.is_space ganc_sys.Text.text_beq
uncovered = refl

step-refused_example : (step length_digest (withdraw withdraw_40 nullifier_1) genesis).1 ≡ genesis
step-refused_example =
    step-refused length_digest (withdraw withdraw_40 nullifier_1) genesis insufficient_balance
      genesis-IsValid uncovered

abbrev manager : OffchainStateManager
manager = record { ls = funded; gen = 1 }

funded_root : is_empty manager.ls.root ≡ false
unfolding supply run step apply_withdrawal ganc_sys.State.Records.validate_withdraw_request
    trim_space ganc_sys.State.Account.parse_positive_amount
    ganc_sys.State.Account.parse_non_negative_amount ganc_sys.Text.Decimal.set_string member
    apply_deposit ganc_sys.State.Records.validate_deposit
    ganc_sys.State.Local.new_local_state_with_genesis_root ganc_sys.State.Account.credit
    ganc_sys.State.Account.new_account_key ganc_sys.Dict.lookup ganc_sys.State.Account.get_or_zero
    ganc_sys.Dict.add ganc_sys.Dict.insert ganc_sys.Hash.hex_digit ganc_sys.Hash.hex_encode
    ganc_sys.Hash.sha256_hex ganc_sys.State.Account.Valid.amount_of
    ganc_sys.State.Account.account_before ganc_sys.State.Account.debit
    ganc_sys.State.Account.entry_or_zero ganc_sys.State.Account.get ganc_sys.State.Account.key_beq
    ganc_sys.State.Account.put ganc_sys.State.Account.snapshot ganc_sys.State.Account.sort_accounts
    ganc_sys.State.Account.values ganc_sys.State.Json.marshal_accounts
    ganc_sys.State.Local.new_local_state ganc_sys.State.Root.compute_root ganc_sys.Text.Decimal.emit
    ganc_sys.Text.Decimal.format ganc_sys.Text.Decimal.is_digit ganc_sys.Text.Decimal.negate
    ganc_sys.Text.Decimal.scan ganc_sys.Text.Decimal.scan_digits ganc_sys.Text.Order.text_ltb
    ganc_sys.Text.is_space ganc_sys.Text.text_beq
funded_root = refl

rollback-take_snapshot_example :
    SameState
      (rollback length_digest
        (take_snapshot manager)
        (manager_apply_withdraw_request length_digest withdraw_40 nullifier_1 manager).1).ls
      manager.ls
rollback-take_snapshot_example =
    rollback-take_snapshot length_digest manager
      (manager_apply_withdraw_request length_digest withdraw_40 nullifier_1 manager).1
      funded-IsValid funded_root

abbrev intent_40 : WithdrawIntent
intent_40 = record {
  owner = alice;
  denom = usdc;
  amount = codes "40";
  destination = codes "cosmos1dest";
}

request_40 : build_withdraw_request intent_40 (codes "wd-1") manager ≡ ok withdraw_40
unfolding supply run step apply_withdrawal ganc_sys.State.Records.validate_withdraw_request
    trim_space ganc_sys.State.Account.parse_positive_amount
    ganc_sys.State.Account.parse_non_negative_amount ganc_sys.Text.Decimal.set_string member
    apply_deposit ganc_sys.State.Records.validate_deposit
    ganc_sys.State.Local.new_local_state_with_genesis_root ganc_sys.State.Account.credit
    ganc_sys.State.Account.new_account_key ganc_sys.Dict.lookup ganc_sys.State.Account.get_or_zero
    ganc_sys.Dict.add ganc_sys.Dict.insert ganc_sys.Hash.hex_digit ganc_sys.Hash.hex_encode
    ganc_sys.Hash.sha256_hex ganc_sys.State.Account.Valid.amount_of
    ganc_sys.State.Account.account_before ganc_sys.State.Account.debit
    ganc_sys.State.Account.entry_or_zero ganc_sys.State.Account.get ganc_sys.State.Account.key_beq
    ganc_sys.State.Account.put ganc_sys.State.Account.snapshot ganc_sys.State.Account.sort_accounts
    ganc_sys.State.Account.values ganc_sys.State.Json.marshal_accounts
    ganc_sys.State.Local.new_local_state ganc_sys.State.Root.compute_root ganc_sys.Text.Decimal.emit
    ganc_sys.Text.Decimal.format ganc_sys.Text.Decimal.is_digit ganc_sys.Text.Decimal.negate
    ganc_sys.Text.Decimal.scan ganc_sys.Text.Decimal.scan_digits ganc_sys.Text.Order.text_ltb
    ganc_sys.Text.is_space ganc_sys.Text.text_beq take_snapshot rollback build_withdraw_request
    build account nullifier_for nullifier_preimage ganc_sys.State.Manager.manager_apply_deposit
    ganc_sys.State.Manager.manager_apply_withdraw_request ganc_sys.Text.has_prefix
request_40 = refl

nullifier_free : member (trim_space nullifier_1) manager.ls.applied_nullifiers ≡ false
unfolding supply run step apply_withdrawal ganc_sys.State.Records.validate_withdraw_request
    trim_space ganc_sys.State.Account.parse_positive_amount
    ganc_sys.State.Account.parse_non_negative_amount ganc_sys.Text.Decimal.set_string member
    apply_deposit ganc_sys.State.Records.validate_deposit
    ganc_sys.State.Local.new_local_state_with_genesis_root ganc_sys.State.Account.credit
    ganc_sys.State.Account.new_account_key ganc_sys.Dict.lookup ganc_sys.State.Account.get_or_zero
    ganc_sys.Dict.add ganc_sys.Dict.insert ganc_sys.Hash.hex_digit ganc_sys.Hash.hex_encode
    ganc_sys.Hash.sha256_hex ganc_sys.State.Account.Valid.amount_of
    ganc_sys.State.Account.account_before ganc_sys.State.Account.debit
    ganc_sys.State.Account.entry_or_zero ganc_sys.State.Account.get ganc_sys.State.Account.key_beq
    ganc_sys.State.Account.put ganc_sys.State.Account.snapshot ganc_sys.State.Account.sort_accounts
    ganc_sys.State.Account.values ganc_sys.State.Json.marshal_accounts
    ganc_sys.State.Local.new_local_state ganc_sys.State.Root.compute_root ganc_sys.Text.Decimal.emit
    ganc_sys.Text.Decimal.format ganc_sys.Text.Decimal.is_digit ganc_sys.Text.Decimal.negate
    ganc_sys.Text.Decimal.scan ganc_sys.Text.Decimal.scan_digits ganc_sys.Text.Order.text_ltb
    ganc_sys.Text.is_space ganc_sys.Text.text_beq
nullifier_free = refl

present :
    (is_empty (trim_space (codes "wd-1")) ≡ false) × (is_empty (trim_space nullifier_1) ≡ false)
unfolding trim_space ganc_sys.Text.is_space
present = (refl, refl)

built_request_is_accepted_example :
    (root : Text) × ((manager_apply_withdraw_request length_digest withdraw_40 nullifier_1
        manager).0
      ≡ ok root)
built_request_is_accepted_example =
    built_request_is_accepted length_digest intent_40 (codes "wd-1") nullifier_1 manager
      funded-IsValid request_40 (present.0) (present.1) nullifier_free

abbrev deposit_bob : DepositRecord
deposit_bob = record deposit_100 { deposit_id = codes "dep-2"; owner = codes "bob" }

abbrev two_accounts : AccountState
two_accounts = (run length_digest (deposit deposit_100 ∷ deposit deposit_bob ∷ []) genesis).accounts

-- The same two accounts in the other order.
abbrev entry_of : Text → AccountKey × Account
entry_of owner = (
  record { owner = owner; denom = usdc },
  record { owner = owner; denom = usdc; balance = codes "100"; nonce = codes "0" },
)

abbrev two_swapped : AccountState
two_swapped = record { accounts = entry_of (codes "bob") ∷ entry_of alice ∷ [] }

swapped : Perm two_accounts.accounts two_swapped.accounts
unfolding supply run step apply_withdrawal ganc_sys.State.Records.validate_withdraw_request
    trim_space ganc_sys.State.Account.parse_positive_amount
    ganc_sys.State.Account.parse_non_negative_amount ganc_sys.Text.Decimal.set_string member
    apply_deposit ganc_sys.State.Records.validate_deposit
    ganc_sys.State.Local.new_local_state_with_genesis_root ganc_sys.State.Account.credit
    ganc_sys.State.Account.new_account_key ganc_sys.Dict.lookup ganc_sys.State.Account.get_or_zero
    ganc_sys.Dict.add ganc_sys.Dict.insert ganc_sys.Hash.hex_digit ganc_sys.Hash.hex_encode
    ganc_sys.Hash.sha256_hex ganc_sys.State.Account.Valid.amount_of
    ganc_sys.State.Account.account_before ganc_sys.State.Account.debit
    ganc_sys.State.Account.entry_or_zero ganc_sys.State.Account.get ganc_sys.State.Account.key_beq
    ganc_sys.State.Account.put ganc_sys.State.Account.snapshot ganc_sys.State.Account.sort_accounts
    ganc_sys.State.Account.values ganc_sys.State.Json.marshal_accounts
    ganc_sys.State.Local.new_local_state ganc_sys.State.Root.compute_root ganc_sys.Text.Decimal.emit
    ganc_sys.Text.Decimal.format ganc_sys.Text.Decimal.is_digit ganc_sys.Text.Decimal.negate
    ganc_sys.Text.Decimal.scan ganc_sys.Text.Decimal.scan_digits ganc_sys.Text.Order.text_ltb
    ganc_sys.Text.is_space ganc_sys.Text.text_beq
swapped = ∣ Permᴰ.swap refl refl ∣₁

snapshot-perm_example :
    (snapshot two_accounts ≡ snapshot two_swapped)
    × (compute_root length_digest (snapshot two_accounts)
        ≡ compute_root length_digest (snapshot two_swapped))
snapshot-perm_example =
    snapshot-perm length_digest two_accounts two_swapped
      (run-IsValid length_digest (deposit deposit_100 ∷ deposit deposit_bob ∷ []) genesis
        genesis-IsValid)
      swapped

abbrev nullifier_of_1 : Text
nullifier_of_1 = sha256_hex length_digest (nullifier_preimage (codes "k") 1)

one_nullifier :
    (parse_non_negative_amount (codes "1") ≡ ok 1)
    × (parse_non_negative_amount (codes "01") ≡ ok 1)
    × (nullifier_for length_digest (codes "k") (codes "1") ≡ ok nullifier_of_1)
    × (nullifier_for length_digest (codes " k") (codes "01") ≡ ok nullifier_of_1)
unfolding supply run step apply_withdrawal ganc_sys.State.Records.validate_withdraw_request
    trim_space ganc_sys.State.Account.parse_positive_amount
    ganc_sys.State.Account.parse_non_negative_amount ganc_sys.Text.Decimal.set_string member
    apply_deposit ganc_sys.State.Records.validate_deposit
    ganc_sys.State.Local.new_local_state_with_genesis_root ganc_sys.State.Account.credit
    ganc_sys.State.Account.new_account_key ganc_sys.Dict.lookup ganc_sys.State.Account.get_or_zero
    ganc_sys.Dict.add ganc_sys.Dict.insert ganc_sys.Hash.hex_digit ganc_sys.Hash.hex_encode
    ganc_sys.Hash.sha256_hex ganc_sys.State.Account.Valid.amount_of
    ganc_sys.State.Account.account_before ganc_sys.State.Account.debit
    ganc_sys.State.Account.entry_or_zero ganc_sys.State.Account.get ganc_sys.State.Account.key_beq
    ganc_sys.State.Account.put ganc_sys.State.Account.snapshot ganc_sys.State.Account.sort_accounts
    ganc_sys.State.Account.values ganc_sys.State.Json.marshal_accounts
    ganc_sys.State.Local.new_local_state ganc_sys.State.Root.compute_root ganc_sys.Text.Decimal.emit
    ganc_sys.Text.Decimal.format ganc_sys.Text.Decimal.is_digit ganc_sys.Text.Decimal.negate
    ganc_sys.Text.Decimal.scan ganc_sys.Text.Decimal.scan_digits ganc_sys.Text.Order.text_ltb
    ganc_sys.Text.is_space ganc_sys.Text.text_beq take_snapshot rollback build_withdraw_request
    build account nullifier_for nullifier_preimage ganc_sys.State.Manager.manager_apply_deposit
    ganc_sys.State.Manager.manager_apply_withdraw_request ganc_sys.Text.has_prefix
one_nullifier = (refl, refl, refl, refl)

nullifier_for_binds_example :
    ((trim_space (codes "k") ≡ trim_space (codes " k")) × ◌≡◌ {A = ℕ} 1 1)
    ⊎ IsCollision length_digest
        (nullifier_preimage (trim_space (codes "k")) 1)
        (nullifier_preimage (trim_space (codes " k")) 1)
nullifier_for_binds_example =
    nullifier_for_binds length_digest (codes "k") (codes " k") (codes "1") (codes "01")
      nullifier_of_1 1 1 length_digest-IsDigest (one_nullifier.0) (one_nullifier.1)
      (one_nullifier.2) (one_nullifier.3)
