-- ===== src/Store/Bounds.antt =====
-- internal/store/memory_store.go: balances within the range of an int64.
use ganc_sys.Prelude.{ℕ, ◌+◌, ◌-◌, ◌%◌, ◌^◌, ◌<◌, ◌≤◌, ◌≡◌, refl, some, arith, ==_refl}
use ganc_sys.Dict.{Dict, lookup, lookup-insert}
use ganc_sys.Text.{Text, text_eq}
use ganc_sys.Text.Decimal.{format}
use ganc_sys.Text.Decimal.RoundTrip.{set_string-format}
use ganc_sys.Text.Int64.{parse_int, format_int, word_of}
use ganc_sys.Types.{DepositRecord}
use ganc_sys.Store.{MemoryStore, user_key, save_deposit}
use ganc_sys.Store.Balances.{parse_int64_or_zero, credit_balance, debit_balance}

-- The numeral of a number that fits.
pub reads_numeral : (n : ℕ) → n < 2 ^ 63 → parse_int64_or_zero (format n) ≡ n
unfolding parse_int64_or_zero parse_int word_of
reads_numeral n h = rw (set_string-format n) (ground arith)

format_small : (n : ℕ) → n < 2 ^ 63 → format_int n ≡ format n
unfolding format_int
format_small n h = ground arith

module _ (key : Text) (a d : ℕ) (m : Dict Text Text) (shows : lookup key m ≡ some (format a)) where
  credit_exact :
      a + d < 2 ^ 63 → lookup key (credit_balance key (format d) m) ≡ some (format (a + d))
  unfolding credit_balance
  credit_exact h =
      let sum : (a + d) % 2 ^ 64 ≡ a + d = omega arith in
      rw
        (
          shows,
          reads_numeral a (omega arith),
          reads_numeral d (omega arith),
          sum,
          format_small (a + d) h,
        )
        (rw (lookup-insert key key (format (a + d)) m, ==_refl key) refl)

  debit_exact :
      d ≤ a → a < 2 ^ 63 → lookup key (debit_balance key (format d) m) ≡ some (format (a - d))
  unfolding debit_balance
  debit_exact low h =
      let difference : (a + (2 ^ 64 - d)) % 2 ^ 64 ≡ a - d = omega arith in
      rw
        (
          shows,
          reads_numeral a (omega arith),
          reads_numeral d (omega arith),
          difference,
          format_small (a - d) (omega arith),
        )
        (rw (lookup-insert key key (format (a - d)) m, ==_refl key) refl)

-- SaveDeposit does not wrap within the bounds of int64: if the user's balance, the module's balance
-- and the amount are shown as the numerals of a, b and d, with d at most a, a below 2^63 and b + d
-- below 2^63, then they are shown as the numerals of a - d and b + d afterwards.
pub save_deposit_exact :
    (a b d : ℕ) (r : DepositRecord) (s : MemoryStore)
    → r.amount ≡ format d
    → lookup (user_key r.owner r.denom) s.app_state.user_balances ≡ some (format a)
    → lookup r.denom s.app_state.module_account_balance ≡ some (format b)
    → d ≤ a
    → a < 2 ^ 63
    → b + d < 2 ^ 63
    → (lookup (user_key r.owner r.denom) (save_deposit r s).app_state.user_balances
        ≡ some (format (a - d)))
      × (lookup r.denom (save_deposit r s).app_state.module_account_balance ≡ some (format (b + d)))
unfolding save_deposit
save_deposit_exact a b d r s amount user bank enough low high = rw amount (
  debit_exact (user_key r.owner r.denom) a d s.app_state.user_balances user enough low,
  credit_exact r.denom b d s.app_state.module_account_balance bank high,
)
