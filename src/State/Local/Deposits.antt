-- ===== src/State/Local/Deposits.antt =====
-- internal/state/local_state.go: the records that `ApplyDeposit` takes, and the state for them.
use ganc_sys.Prelude.{
  ℕ, ◌≡◌, ◌⊎◌, false, List, arith, Error, ok, err, Result-cases, Bool-cases, inl, inr,
  deposit_already_applied,
}
use ganc_sys.Dict.{member, add}
use ganc_sys.Text.{Text, text_eq}
use ganc_sys.Types.{DepositRecord}
use ganc_sys.State.Account.{AccountKey, new_account_key, parse_positive_amount, put, credit}
use ganc_sys.State.Account.Valid.{IsValid}
use ganc_sys.State.Account.Ledger.{credited, credit-eq-put}
use ganc_sys.State.Records.{validate_deposit}
use ganc_sys.State.Local.{LocalState, apply_deposit, refresh_root}

-- A deposit that can be applied: of d units, to the account at k.
pub record IsDepositable (r : DepositRecord) (k : AccountKey) (d : ℕ) (s : LocalState)
    : Type 0 where
  pub well_formed : validate_deposit r ≡ ok tt
  pub key : new_account_key r.owner r.denom ≡ ok k
  pub amount : parse_positive_amount r.amount ≡ ok d
  pub fresh : member r.deposit_id s.applied_deposits ≡ false

module _ (sha256 : Text → List ℕ) where
  -- The state behind it.
  abbrev pub deposited : DepositRecord → AccountKey → ℕ → LocalState → LocalState
  deposited r k d s = refresh_root sha256 (record s {
    accounts = put k (credited k d s.accounts) s.accounts;
    applied_deposits = add r.deposit_id s.applied_deposits;
  })

  module _ (r : DepositRecord) (s : LocalState) (v : IsValid s.accounts) where
    pub apply_deposit-eq-deposited :
        (k : AccountKey) (d : ℕ)
        → IsDepositable r k d s
        → apply_deposit sha256 r s ≡ (ok (deposited r k d s).root, deposited r k d s)
    unfolding apply_deposit
    apply_deposit-eq-deposited k d h = ground (
      arith,
      h.well_formed,
      h.fresh,
      credit-eq-put r.owner r.denom r.amount s.accounts v k d h.key h.amount,
    )

    pub apply_deposit_cases :
        ((k : AccountKey) × (d : ℕ) × IsDepositable r k d s)
        ⊎ ((e : Error) × (apply_deposit sha256 r s ≡ (err e, s)))
    unfolding apply_deposit credit
    apply_deposit_cases = elim (Result-cases (validate_deposit r)) [
      | inr (e, bad) ↦ inr (e, rw bad)
      | inl (u, well_formed) ↦ elim (Bool-cases (member r.deposit_id s.applied_deposits)) [
        | inl seen ↦ inr (deposit_already_applied, rw (well_formed, seen))
        | inr fresh ↦ elim (Result-cases (new_account_key r.owner r.denom)) [
          | inr (e, bad) ↦ inr (e, rw (well_formed, fresh, credit, bad))
          | inl (k, key) ↦ elim (Result-cases (parse_positive_amount r.amount)) [
            | inr (e, bad) ↦ inr (e, rw (well_formed, fresh, credit, key, bad))
            | inl (d, amount) ↦ inl (
              k,
              d,
              record { well_formed = well_formed; key = key; amount = amount; fresh = fresh },
            )
          ]
        ]
      ]
    ]
