-- ===== src/State/Local/Invariant.antt =====
-- internal/state/local_state.go and withdrawal.go: both operations on valid accounts.
use ganc_sys.Prelude.{
  Bool-cases, ◌↔◌, [], ◌∷◌, ℕ, ◌+◌, ◌-◌, ◌≡◌, refl, ap, inl, inr, List, ok, ◌==◌, if◌then◌else◌,
}
use ganc_sys.Text.{Text, text_eq}
use ganc_sys.Types.{DepositRecord, WithdrawRequest}
use ganc_sys.State.Account.{AccountKey, key_eq, key_beq_iff, AccountState, entry_or_zero, put}
use ganc_sys.State.Account.Valid.{
  IsKey, IsValid, new_account_key-IsKey, entry_or_zero-IsValidEntry, put-IsValid, amount_of,
  amount_of-format, new_account_state-IsValid,
}
use ganc_sys.State.Account.Ledger.{balance_of, nonce_of, credited, debited, entry_or_zero-put}
use ganc_sys.State.Local.{
  LocalState, apply_deposit, apply_withdrawal, new_local_state_with_genesis_root,
}
use ganc_sys.State.Local.Deposits.{apply_deposit-eq-deposited, apply_deposit_cases}
use ganc_sys.State.Local.Withdrawals.{
  IsWithdrawable, withdrawn, apply_withdrawal-eq-withdrawn, apply_withdrawal_cases,
}

module _ (k : AccountKey) (hk : IsKey k) (d : ℕ) (s : AccountState) (v : IsValid s) where
  put-credited-IsValid : IsValid (put k (credited k d s) s)
  put-credited-IsValid =
      let h = entry_or_zero-IsValidEntry k s v hk in
      put-IsValid k (credited k d s) s v (h.0, h.1, h.2, (balance_of k s + d, refl), h.4)

  put-debited-IsValid : IsValid (put k (debited k d s) s)
  put-debited-IsValid =
      let h = entry_or_zero-IsValidEntry k s v hk in
      put-IsValid k (debited k d s) s v
        (h.0, h.1, h.2, (balance_of k s - d, refl), (nonce_of k s + 1, refl))

module _ (k j : AccountKey) (d : ℕ) (s : AccountState) where
  pub balance_of-credited :
      balance_of j (put k (credited k d s) s)
      ≡ (if k == j then balance_of k s + d else balance_of j s)
  unfolding balance_of
  balance_of-credited = elim (Bool-cases (k == j)) [
    | inl same ↦ rw (entry_or_zero-put k j (credited k d s) s, same) (amount_of-format _)
    | inr other ↦ rw (entry_or_zero-put k j (credited k d s) s, other)
  ]

  pub nonce_of-credited : nonce_of j (put k (credited k d s) s) ≡ nonce_of j s
  unfolding nonce_of
  nonce_of-credited = elim (Bool-cases (k == j)) [
    | inl same ↦
        rw (entry_or_zero-put k j (credited k d s) s, same)
          (ap (λ i. amount_of (entry_or_zero i s).nonce) ((key_beq_iff k j).0 same))
    | inr other ↦ rw (entry_or_zero-put k j (credited k d s) s, other)
  ]

  pub balance_of-debited :
      balance_of j (put k (debited k d s) s)
      ≡ (if k == j then balance_of k s - d else balance_of j s)
  unfolding balance_of
  balance_of-debited = elim (Bool-cases (k == j)) [
    | inl same ↦ rw (entry_or_zero-put k j (debited k d s) s, same) (amount_of-format _)
    | inr other ↦ rw (entry_or_zero-put k j (debited k d s) s, other)
  ]

  pub nonce_of-debited :
      nonce_of j (put k (debited k d s) s) ≡ (if k == j then nonce_of k s + 1 else nonce_of j s)
  unfolding nonce_of
  nonce_of-debited = elim (Bool-cases (k == j)) [
    | inl same ↦ rw (entry_or_zero-put k j (debited k d s) s, same) (amount_of-format _)
    | inr other ↦ rw (entry_or_zero-put k j (debited k d s) s, other)
  ]

module _ (sha256 : Text → List ℕ) where
  pub new_local_state-IsValid :
      (genesis_root : Text)
      → IsValid (new_local_state_with_genesis_root sha256 genesis_root).accounts
  unfolding new_local_state_with_genesis_root
  new_local_state-IsValid [] = new_account_state-IsValid
  new_local_state-IsValid (c ∷ t) = new_account_state-IsValid

  -- A deposit keeps the accounts valid, whether it is applied or refused.
  pub apply_deposit-IsValid :
      (r : DepositRecord) (s : LocalState)
      → IsValid s.accounts
      → IsValid (apply_deposit sha256 r s).1.accounts
  apply_deposit-IsValid r s v = elim (apply_deposit_cases sha256 r s v) [
    | inl (k, d, h) ↦
        rw (apply_deposit-eq-deposited sha256 r s v k d h)
          (put-credited-IsValid k (new_account_key-IsKey r.owner r.denom k h.key) d s.accounts v)
    | inr (e, refused) ↦ rw refused v
  ]

  -- So does a withdrawal.
  pub apply_withdrawal-IsValid :
      (req : WithdrawRequest) (nullifier : Text) (s : LocalState)
      → IsValid s.accounts
      → IsValid (apply_withdrawal sha256 req nullifier s).1.accounts
  apply_withdrawal-IsValid req nullifier s v =
      elim (apply_withdrawal_cases sha256 req nullifier s v) [
        | inl (k, a, h) ↦ rw (apply_withdrawal-eq-withdrawn sha256 req nullifier s v k a h) (
            put-debited-IsValid k (new_account_key-IsKey req.owner req.denom k h.key) a s.accounts
              v)
        | inr (e, refused) ↦ rw refused v
      ]

  -- On a state with valid accounts ApplyWithdrawal succeeds exactly if the request is well-formed
  -- with a positive amount that its account covers, its nonce is the account's plus one, and its
  -- nullifier is not blank and was not applied.
  pub apply_withdrawal_iff :
      (req : WithdrawRequest) (nullifier : Text) (s : LocalState)
      → IsValid s.accounts
      → ((root : Text) × ((apply_withdrawal sha256 req nullifier s).0 ≡ ok root))
        ↔ ((k : AccountKey) × (a : ℕ) × IsWithdrawable req nullifier k a s)
  apply_withdrawal_iff req nullifier s v = (
    λ h. elim (apply_withdrawal_cases sha256 req nullifier s v) [
      | inl found ↦ found
      | inr (e, refused) ↦ cc (h.1)
    ],
    λ h.
        let (k, a, g) = h in
        (
          (withdrawn sha256 nullifier k a s).root,
          rw (apply_withdrawal-eq-withdrawn sha256 req nullifier s v k a g),
        ),
  )
