-- ===== src/Tests/Store.antt =====
-- Runs of the memory store.
use ganc_sys.Prelude.{◌≡◌, refl, false, some, List, [], ◌∷◌, arith}
use ganc_sys.Dict.{lookup, insert}
use ganc_sys.Text.{Text, text_eq, codes}
use ganc_sys.Text.Decimal.{format}
use ganc_sys.Types.{DepositRecord, WithdrawRecord}
use ganc_sys.Store.{MemoryStore, new_memory_store, user_key, save_deposit}
use ganc_sys.Store.Balances.{reading}
use ganc_sys.Store.Refinement.{
  Call, deposit, withdraw_record, claim, perform_all, rows_of, on_rows_all, no_rows, store_rows,
}
use ganc_sys.Store.Conservation.{shown, store_shown}
use ganc_sys.Store.Bounds.{save_deposit_exact}
use ganc_sys.Tests.Data.{deposit_100}

abbrev record_40 : WithdrawRecord
record_40 = record {
  withdraw_id = codes "wd-1";
  owner = codes "alice";
  denom = codes "uusdc";
  amount = codes "40";
  destination = codes "alice";
  nullifier = codes "0xn1";
  claimed = false;
}

abbrev calls : List Call
calls =
    deposit deposit_100
    ∷ withdraw_record record_40
    ∷ deposit deposit_100
    ∷ claim (codes "wd-1")
    ∷ []

store_rows_example : rows_of (perform_all calls new_memory_store) ≡ on_rows_all calls no_rows
store_rows_example = store_rows calls

store_shown_example : shown (perform_all calls new_memory_store) ≡ shown new_memory_store
store_shown_example = store_shown calls new_memory_store

abbrev cosmos_alice_100 : DepositRecord
cosmos_alice_100 = record deposit_100 { owner = codes "cosmos1alice" }

user_shows :
    lookup
      (user_key (codes "cosmos1alice") (codes "uusdc"))
      new_memory_store.app_state.user_balances
    ≡ some (format 1000)
unfolding ganc_sys.Dict.lookup ganc_sys.Text.text_beq ganc_sys.Store.new_memory_store
    ganc_sys.Text.Decimal.format
user_shows = refl

module_shows :
    lookup (codes "uusdc") new_memory_store.app_state.module_account_balance ≡ some (format 0)
unfolding ganc_sys.Dict.lookup ganc_sys.Text.text_beq ganc_sys.Store.new_memory_store
    ganc_sys.Text.Decimal.format
module_shows = refl

hundred : codes "100" ≡ format 100
unfolding ganc_sys.Text.Decimal.format
hundred = refl

save_deposit_exact_example :
    (lookup
        (codes "cosmos1alice/uusdc")
        (save_deposit cosmos_alice_100 new_memory_store).app_state.user_balances
      ≡ some (format 900))
    × (lookup
          (codes "uusdc")
          (save_deposit cosmos_alice_100 new_memory_store).app_state.module_account_balance
        ≡ some (format 100))
save_deposit_exact_example =
    save_deposit_exact 1000 0 100 cosmos_alice_100 new_memory_store hundred user_shows module_shows
      (omega arith) (omega arith) (omega arith)

-- A deposit that is saved twice is taken from the user twice.
saved_twice :
    lookup
      (codes "cosmos1alice/uusdc")
      (save_deposit cosmos_alice_100
        (save_deposit cosmos_alice_100 new_memory_store)).app_state.user_balances
    ≡ some (codes "800")
unfolding ganc_sys.Dict.lookup ganc_sys.Dict.insert ganc_sys.Text.text_beq
    ganc_sys.Store.new_memory_store ganc_sys.Store.save_deposit
    ganc_sys.Store.Balances.debit_balance ganc_sys.Text.Int64.word_of ganc_sys.Text.Int64.parse_int
    ganc_sys.Text.Int64.format_int ganc_sys.Text.Decimal.set_string ganc_sys.Text.Decimal.format
saved_twice = refl
