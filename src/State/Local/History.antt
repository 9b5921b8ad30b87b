-- ===== src/State/Local/History.antt =====
-- internal/state/local_state.go and withdrawal.go: sequences of deposits and withdrawals.
use ganc_sys.Prelude.{
  ℕ, ◌+◌, ◌≡◌, refl, inl, inr, List, [], ◌∷◌, arith, Error, Result, ok, err, ◌==◌, ◌&&◌,
  if◌then◌else◌,
}
use ganc_sys.Text.{Text, text_eq, text_beq_iff, trim_space}
use ganc_sys.Types.{DepositRecord, WithdrawRequest}
use ganc_sys.State.Account.{
  AccountKey, AccountState, put, key_eq, key_beq_iff, new_account_key, parse_positive_amount,
}
use ganc_sys.State.Account.Valid.{IsValid, amount_of}
use ganc_sys.State.Account.Ledger.{nonce_of, debited}
use ganc_sys.State.Local.{LocalState, apply_deposit, apply_withdrawal}
use ganc_sys.State.Local.Deposits.{apply_deposit-eq-deposited, apply_deposit_cases}
use ganc_sys.State.Local.Withdrawals.{apply_withdrawal-eq-withdrawn, apply_withdrawal_cases}
use ganc_sys.State.Local.Invariant.{
  apply_deposit-IsValid, apply_withdrawal-IsValid, nonce_of-credited, nonce_of-debited,
}
use ganc_sys.State.Local.Supply.{supply, supply-credited, supply-debited}

pub data Op : Type 0 where
  deposit : DepositRecord → Op
  withdraw : WithdrawRequest → Text → Op

-- What a call did: the units that came in and that went out.
abbrev pub same_denom : Text → Text → ℕ → ℕ
same_denom denom raw n = if trim_space raw == denom then n else 0

abbrev pub units_in : Text → Op → Result Text → ℕ
units_in denom (deposit r) (ok _) = same_denom denom r.denom (amount_of r.amount)
units_in denom (deposit r) (err _) = 0
units_in denom (withdraw req nullifier) _ = 0

abbrev pub units_out : Text → Op → Result Text → ℕ
units_out denom (withdraw req nullifier) (ok _) = same_denom denom req.denom (amount_of req.amount)
units_out denom (withdraw req nullifier) (err _) = 0
units_out denom (deposit r) _ = 0

-- One for an applied withdrawal of the account.
abbrev pub withdrawals_of : AccountKey → Op → Result Text → ℕ
withdrawals_of k (withdraw req nullifier) (ok _) =
    if k.owner == trim_space req.owner && k.denom == trim_space req.denom then 1 else 0
withdrawals_of k (withdraw req nullifier) (err _) = 0
withdrawals_of k (deposit r) _ = 0

amount_of_positive : (t : Text) (d : ℕ) → parse_positive_amount t ≡ ok d → amount_of t ≡ d
unfolding parse_positive_amount amount_of
amount_of_positive t d h = ground arith

key_denom :
    (owner denom : Text) (k : AccountKey)
    → new_account_key owner denom ≡ ok k
    → (k.owner ≡ trim_space owner) × (k.denom ≡ trim_space denom)
unfolding new_account_key
key_denom owner denom k h = ground arith

nonce_counts :
    (j : AccountKey) (owner denom : Text) (k : AccountKey)
    → new_account_key owner denom ≡ ok k
    → (a : ℕ) (s : AccountState)
    → nonce_of j (put k (debited k a s) s)
      ≡ nonce_of j s + (if j.owner == trim_space owner && j.denom == trim_space denom then 1 else 0)
nonce_counts j owner denom k h a s =
    let (ho, hd) = key_denom owner denom k h in
    ground (
      arith,
      nonce_of-debited k j a s,
      ho,
      hd,
      key_beq_iff k j,
      text_beq_iff j.owner (trim_space owner),
      text_beq_iff j.denom (trim_space denom),
    )

module _ (sha256 : Text → List ℕ) where
  unfoldable pub step : Op → LocalState → Result Text × LocalState
  step (deposit r) s = apply_deposit sha256 r s
  step (withdraw req nullifier) s = apply_withdrawal sha256 req nullifier s

  -- The operations in order, and a count of what each call did.
  unfoldable pub run : List Op → LocalState → LocalState
  run [] s = s
  run (op ∷ ops) s = run ops (step op s).1

  unfoldable pub tally : (Op → Result Text → ℕ) → List Op → LocalState → ℕ
  tally f [] s = 0
  tally f (op ∷ ops) s = f op (step op s).0 + tally f ops (step op s).1

  -- On a state with valid accounts, an ApplyDeposit or ApplyWithdrawal that returns an error leaves
  -- the state as it was.
  pub step-refused :
      (op : Op) (s : LocalState) (e : Error)
      → IsValid s.accounts
      → (step op s).0 ≡ err e
      → (step op s).1 ≡ s
  unfolding step
  step-refused (deposit r) s e v h = elim (apply_deposit_cases sha256 r s v) [
    | inl (k, d, g) ↦ cc (apply_deposit-eq-deposited sha256 r s v k d g)
    | inr (e', refused) ↦ rw refused
  ]
  step-refused (withdraw req nullifier) s e v h =
      elim (apply_withdrawal_cases sha256 req nullifier s v) [
        | inl (k, a, g) ↦ cc (apply_withdrawal-eq-withdrawn sha256 req nullifier s v k a g)
        | inr (e', refused) ↦ rw refused
      ]

  pub step-IsValid :
      (op : Op) (s : LocalState) → IsValid s.accounts → IsValid (step op s).1.accounts
  unfolding step
  step-IsValid (deposit r) s v = apply_deposit-IsValid sha256 r s v
  step-IsValid (withdraw req nullifier) s v = apply_withdrawal-IsValid sha256 req nullifier s v

  -- Any sequence of deposits and withdrawals, applied or refused, keeps the accounts valid: one
  -- entry for each key, trimmed non-empty keys that match their entries, and balances and nonces
  -- that are canonical decimal numerals.
  pub run-IsValid :
      (ops : List Op) (s : LocalState) → IsValid s.accounts → IsValid (run ops s).accounts
  unfolding run
  run-IsValid [] s v = v
  run-IsValid (op ∷ ops) s v = run-IsValid ops (step op s).1 (step-IsValid op s v)

  -- One call moves the supply of a denom by what its outcome says.
  step-supply :
      (denom : Text) (op : Op) (s : LocalState)
      → IsValid s.accounts
      → supply denom (step op s).1.accounts + units_out denom op (step op s).0
        ≡ supply denom s.accounts + units_in denom op (step op s).0
  unfolding step
  step-supply denom (deposit r) s v = elim (apply_deposit_cases sha256 r s v) [
    | inr (e, refused) ↦ rw refused (omega arith)
    | inl (k, d, h) ↦ rw (apply_deposit-eq-deposited sha256 r s v k d h) (
        ground (
          arith,
          supply-credited denom k d s.accounts,
          amount_of_positive r.amount d h.amount,
          key_denom r.owner r.denom k h.key,
        ))
  ]
  step-supply denom (withdraw req nullifier) s v =
      elim (apply_withdrawal_cases sha256 req nullifier s v) [
        | inr (e, refused) ↦ rw refused (omega arith)
        | inl (k, a, h) ↦ rw (apply_withdrawal-eq-withdrawn sha256 req nullifier s v k a h) (
            ground (
              arith,
              supply-debited denom k a s.accounts h.covered,
              amount_of_positive req.amount a h.amount,
              key_denom req.owner req.denom k h.key,
            ))
      ]

  -- Conservation of funds: after any sequence of deposits and withdrawals on a local state with
  -- valid accounts, the supply of a denom (the sum of its balances) plus the units of the
  -- withdrawals that were applied is the supply before plus the units of the deposits that were
  -- applied; refused calls count nothing.
  pub run-supply :
      (denom : Text) (ops : List Op) (s : LocalState)
      → IsValid s.accounts
      → supply denom (run ops s).accounts + tally (units_out denom) ops s
        ≡ supply denom s.accounts + tally (units_in denom) ops s
  unfolding run tally
  run-supply denom [] s v = refl
  run-supply denom (op ∷ ops) s v =
      omega
        (arith, step-supply denom op s v, run-supply denom ops (step op s).1 (step-IsValid op s v))

  step-nonce :
      (k : AccountKey) (op : Op) (s : LocalState)
      → IsValid s.accounts
      → nonce_of k (step op s).1.accounts
        ≡ nonce_of k s.accounts + withdrawals_of k op (step op s).0
  unfolding step
  step-nonce j (deposit r) s v = elim (apply_deposit_cases sha256 r s v) [
    | inr (e, refused) ↦ rw refused (omega arith)
    | inl (k, d, h) ↦
        rw (apply_deposit-eq-deposited sha256 r s v k d h)
          (omega (arith, nonce_of-credited k j d s.accounts))
  ]
  step-nonce j (withdraw req nullifier) s v =
      elim (apply_withdrawal_cases sha256 req nullifier s v) [
        | inr (e, refused) ↦ rw refused (omega arith)
        | inl (k, a, h) ↦
            rw (apply_withdrawal-eq-withdrawn sha256 req nullifier s v k a h)
              (nonce_counts j req.owner req.denom k h.key a s.accounts)
      ]

  -- On a state with valid accounts, after any sequence of deposits and withdrawals an account's
  -- nonce is what it was plus the number of its withdrawals that were applied.
  pub run-nonce :
      (k : AccountKey) (ops : List Op) (s : LocalState)
      → IsValid s.accounts
      → nonce_of k (run ops s).accounts ≡ nonce_of k s.accounts + tally (withdrawals_of k) ops s
  unfolding run tally
  run-nonce k [] s v = omega arith
  run-nonce k (op ∷ ops) s v =
      omega (arith, step-nonce k op s v, run-nonce k ops (step op s).1 (step-IsValid op s v))
