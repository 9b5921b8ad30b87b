-- ===== src/State/Local/Withdrawals.antt =====
-- internal/state/withdrawal.go: the requests that `ApplyWithdrawal` takes, and the state for them.
use native.Mathlib.Decide.{dec_le, ℕ_discrete}
use ganc_sys.Prelude.{
  ℕ, ◌+◌, ◌≤◌, ◌≡◌, ap, ◌∙◌, ◌⊎◌, false, List, arith, Error, ok, err, Result-cases, Bool-cases, inl,
  inr, withdraw_already_applied, nonce_mismatch, insufficient_balance, invalid_withdraw_request,
}
use ganc_sys.Dict.{member, add}
use ganc_sys.Text.{Text, text_eq, is_empty, trim_space}
use ganc_sys.Text.Trim.{trim_space-trim_space}
use ganc_sys.Types.{WithdrawRequest}
use ganc_sys.State.Account.{
  AccountKey, AccountState, new_account_key, parse_positive_amount, parse_non_negative_amount, put,
  get_or_zero, entry_or_zero,
}
use ganc_sys.State.Account.Valid.{
  IsValid, IsValidEntry, parse-IsCanonical, entry_or_zero-IsValidEntry, new_account_key-IsKey,
}
use ganc_sys.State.Account.Ledger.{balance_of, nonce_of, debited, debit-eq-put}
use ganc_sys.State.Records.{validate_withdraw_request}
use ganc_sys.State.Local.{LocalState, apply_withdrawal, refresh_root}

-- A request that can be applied: for `a` units of the account at `k`.
pub record IsWithdrawable (req : WithdrawRequest) (nullifier : Text) (k : AccountKey) (a : ℕ)
    (s : LocalState) : Type 0 where
  pub well_formed : validate_withdraw_request req ≡ ok tt
  pub nullifier_present : is_empty (trim_space nullifier) ≡ false
  pub key : new_account_key req.owner req.denom ≡ ok k
  pub amount : parse_positive_amount req.amount ≡ ok a
  pub nonce : parse_non_negative_amount req.nonce ≡ ok (nonce_of k s.accounts + 1)
  pub fresh : member (trim_space nullifier) s.applied_nullifiers ≡ false
  pub covered : a ≤ balance_of k s.accounts

pub key_of_trimmed :
    (owner denom : Text)
    → new_account_key (trim_space owner) (trim_space denom) ≡ new_account_key owner denom
unfolding new_account_key
key_of_trimmed owner denom = rw (trim_space-trim_space owner, trim_space-trim_space denom)

module _ (owner denom : Text) (k : AccountKey) (hk : new_account_key owner denom ≡ ok k)
    (s : AccountState) (v : IsValid s) where
  entry : IsValidEntry (k, entry_or_zero k s)
  entry = entry_or_zero-IsValidEntry k s v (new_account_key-IsKey owner denom k hk)

  pub get_or_zero-balance :
      parse_non_negative_amount (get_or_zero owner denom s).balance ≡ ok (balance_of k s)
  unfolding get_or_zero entry_or_zero balance_of
  get_or_zero-balance = ground (arith, hk, parse-IsCanonical (entry_or_zero k s).balance (entry.3))

  pub get_or_zero-nonce :
      parse_non_negative_amount (get_or_zero owner denom s).nonce ≡ ok (nonce_of k s)
  unfolding get_or_zero entry_or_zero nonce_of
  get_or_zero-nonce = ground (arith, hk, parse-IsCanonical (entry_or_zero k s).nonce (entry.4))

-- What the first checks of a well-formed request say of its owner and denom.
pub key_of_request :
    (req : WithdrawRequest)
    → validate_withdraw_request req ≡ ok tt
    → (k : AccountKey) × (new_account_key req.owner req.denom ≡ ok k)
unfolding validate_withdraw_request new_account_key
key_of_request req h =
    (record { owner = trim_space req.owner; denom = trim_space req.denom }, ground arith)

module _ (sha256 : Text → List ℕ) where
  -- The state behind it.
  abbrev pub withdrawn : Text → AccountKey → ℕ → LocalState → LocalState
  withdrawn nullifier k a s = refresh_root sha256 (record s {
    accounts = put k (debited k a s.accounts) s.accounts;
    applied_nullifiers = add (trim_space nullifier) s.applied_nullifiers;
  })

  module _ (req : WithdrawRequest) (nullifier : Text) (s : LocalState)
      (v : IsValid s.accounts) where
    pub apply_withdrawal-eq-withdrawn :
        (k : AccountKey) (a : ℕ)
        → IsWithdrawable req nullifier k a s
        → apply_withdrawal sha256 req nullifier s
          ≡ (ok (withdrawn nullifier k a s).root, withdrawn nullifier k a s)
    unfolding apply_withdrawal
    apply_withdrawal-eq-withdrawn k a h =
        let key = key_of_trimmed req.owner req.denom ∙ h.key in
        let bal =
          get_or_zero-balance (trim_space req.owner) (trim_space req.denom) k key s.accounts v in
        let non =
          get_or_zero-nonce (trim_space req.owner) (trim_space req.denom) k key s.accounts v in
        ground (
          arith,
          h.well_formed,
          h.nullifier_present,
          h.amount,
          h.nonce,
          h.fresh,
          h.covered,
          bal,
          non,
          debit-eq-put (trim_space req.owner) (trim_space req.denom) req.amount s.accounts v k a key
              h.amount h.covered,
        )

    pub apply_withdrawal_cases :
        ((k : AccountKey) × (a : ℕ) × IsWithdrawable req nullifier k a s)
        ⊎ ((e : Error) × (apply_withdrawal sha256 req nullifier s ≡ (err e, s)))
    unfolding apply_withdrawal
    apply_withdrawal_cases = elim (Result-cases (validate_withdraw_request req)) [
      | inr (e, bad) ↦ inr (e, ground arith)
      | inl (u, well_formed) ↦
          let (k, hk) = key_of_request req well_formed in
          let key = key_of_trimmed req.owner req.denom ∙ hk in
          let bal =
            get_or_zero-balance (trim_space req.owner) (trim_space req.denom) k key s.accounts v in
          let non =
            get_or_zero-nonce (trim_space req.owner) (trim_space req.denom) k key s.accounts v in
          elim (Bool-cases (is_empty (trim_space nullifier))) [
            | inl absent ↦ inr (invalid_withdraw_request, ground arith)
            | inr present ↦ elim (Result-cases (parse_positive_amount req.amount)) [
              | inr (e, bad) ↦ inr (invalid_withdraw_request, ground arith)
              | inl (a, amount) ↦ elim (Result-cases (parse_non_negative_amount req.nonce)) [
                | inr (e, bad) ↦ inr (invalid_withdraw_request, ground arith)
                | inl (n, nonce) ↦
                    elim (Bool-cases (member (trim_space nullifier) s.applied_nullifiers)) [
                      | inl seen ↦ inr (withdraw_already_applied, ground arith)
                      | inr fresh ↦ elim (dec_le a (balance_of k s.accounts)) [
                        | no short ↦ inr (insufficient_balance, ground arith)
                        | yes covered ↦ elim (ℕ_discrete n (nonce_of k s.accounts + 1)) [
                          | no other ↦ inr (nonce_mismatch, ground arith)
                          | yes next ↦ inl (
                            k,
                            a,
                            record {
                              well_formed = well_formed;
                              nullifier_present = present;
                              key = hk;
                              amount = amount;
                              nonce = nonce ∙ ap ok next;
                              fresh = fresh;
                              covered = covered;
                            },
                          )
                        ]
                      ]
                    ]
              ]
            ]
          ]
    ]
