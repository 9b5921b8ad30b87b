-- ===== src/State/Local/Supply.antt =====
-- internal/state/local_state.go and withdrawal.go: the units of a denom that the accounts hold.
use ganc_sys.Text.{trim_space}
use ganc_sys.Text.Decimal.{set_string}
use ganc_sys.State.Account.{parse_non_negative_amount}
use ganc_sys.Prelude.{
  refl, [], ◌∷◌, ℕ, ◌+◌, ◌-◌, ◌≤◌, ◌≡◌, refl, inl, inr, arith, Option-cases, ◌==◌, if◌then◌else◌,
  sum_of,
}
use ganc_sys.Dict.{lookup}
use ganc_sys.Dict.Laws.{sum_of-insert}
use ganc_sys.Text.{Text, text_eq}
use ganc_sys.Types.{Account}
use ganc_sys.State.Account.{AccountKey, key_eq, AccountState, entry_or_zero, put}
use ganc_sys.State.Account.Valid.{amount_of, amount_of-format}
use ganc_sys.State.Account.Ledger.{balance_of, credited, debited}

-- What one entry of the map adds to the supply of a denom.
abbrev pub holding : Text → AccountKey × Account → ℕ
holding denom (k, a) = if k.denom == denom then amount_of a.balance else 0

unfoldable pub supply : Text → AccountState → ℕ
supply denom s = sum_of (holding denom) s.accounts

zero_amount : amount_of (b'0' ∷ []) ≡ 0
unfolding amount_of parse_non_negative_amount trim_space set_string
zero_amount = refl

module _ (denom : Text) (k : AccountKey) (a : Account) (s : AccountState) where
  supply-put :
      supply denom (put k a s) + (if k.denom == denom then balance_of k s else 0)
      ≡ supply denom s + (if k.denom == denom then amount_of a.balance else 0)
  unfolding supply put balance_of entry_or_zero
  supply-put = elim (Option-cases (lookup k s.accounts)) [
    | inl absent ↦
        rw absent
          (ground (arith, zero_amount, rw absent at (sum_of-insert (holding denom) k a s.accounts)))
    | inr (b, found) ↦
        rw found (ground (arith, rw found at (sum_of-insert (holding denom) k a s.accounts)))
  ]

module _ (denom : Text) (k : AccountKey) (d : ℕ) (s : AccountState) where
  pub supply-credited :
      supply denom (put k (credited k d s) s) ≡ supply denom s + (if k.denom == denom then d else 0)
  supply-credited =
      ground (arith, supply-put denom k (credited k d s) s, amount_of-format (balance_of k s + d))

  pub supply-debited :
      d ≤ balance_of k s
      → supply denom (put k (debited k d s) s) + (if k.denom == denom then d else 0)
        ≡ supply denom s
  supply-debited h =
      ground (arith, supply-put denom k (debited k d s) s, amount_of-format (balance_of k s - d))
