-- ===== src/State/Account/Ledger.antt =====
-- internal/state/account_state.go: `Credit` and `Debit` as changes of balances and nonces.
use ganc_sys.Prelude.{false, ltb, ℕ, ◌+◌, ◌-◌, ◌≤◌, ◌≡◌, ◌==◌, arith, ok, ltb, if◌then◌else◌}
use ganc_sys.Dict.{lookup-insert}
use ganc_sys.Text.{Text}
use ganc_sys.Text.Decimal.{format}
use ganc_sys.Types.{Account}
use ganc_sys.State.Account.{
  AccountKey, key_eq, AccountState, new_account_key, parse_positive_amount, entry_or_zero, put,
  credit, debit,
}
use ganc_sys.State.Account.Valid.{
  IsValid, amount_of, parse-IsCanonical, entry_or_zero-IsValidEntry, new_account_key-IsKey,
}

unfoldable pub balance_of : AccountKey → AccountState → ℕ
balance_of k s = amount_of (entry_or_zero k s).balance

unfoldable pub nonce_of : AccountKey → AccountState → ℕ
nonce_of k s = amount_of (entry_or_zero k s).nonce

pub entry_or_zero-put :
    (k j : AccountKey) (a : Account) (s : AccountState)
    → entry_or_zero j (put k a s) ≡ (if k == j then a else entry_or_zero j s)
unfolding entry_or_zero put
entry_or_zero-put k j a s = rw lookup-insert (ground arith)

-- The account that `Credit` writes.
abbrev pub credited : AccountKey → ℕ → AccountState → Account
credited k d s = record (entry_or_zero k s) { balance = format (balance_of k s + d) }

abbrev pub debited : AccountKey → ℕ → AccountState → Account
debited k d s = record (entry_or_zero k s) {
  balance = format (balance_of k s - d);
  nonce = format (nonce_of k s + 1);
}

covered : (d b : ℕ) → d ≤ b → ltb b d ≡ false
covered d b h = ground arith

module _ (owner denom amount : Text) (s : AccountState) (v : IsValid s) where
  pub credit-eq-put :
      (k : AccountKey) (d : ℕ)
      → new_account_key owner denom ≡ ok k
      → parse_positive_amount amount ≡ ok d
      → credit owner denom amount s ≡ (ok (credited k d s), put k (credited k d s) s)
  unfolding credit balance_of
  credit-eq-put k d hk hd =
      let h = entry_or_zero-IsValidEntry k s v (new_account_key-IsKey owner denom k hk) in
      rw (hk, hd, parse-IsCanonical _ h.3)

  pub debit-eq-put :
      (k : AccountKey) (d : ℕ)
      → new_account_key owner denom ≡ ok k
      → parse_positive_amount amount ≡ ok d
      → d ≤ balance_of k s
      → debit owner denom amount s ≡ (ok (debited k d s), put k (debited k d s) s)
  unfolding debit balance_of nonce_of
  debit-eq-put k d hk hd enough =
      let h = entry_or_zero-IsValidEntry k s v (new_account_key-IsKey owner denom k hk) in
      rw (
        hk,
        hd,
        parse-IsCanonical _ h.3,
        covered d (balance_of k s) enough,
        parse-IsCanonical _ h.4,
      )
