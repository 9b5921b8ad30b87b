-- ===== src/State/Local/Replay.antt =====
-- internal/state/local_state.go and withdrawal.go: ids and nullifiers that were consumed.
use ganc_sys.Prelude.{
  ℕ, ◌≡◌, inl, inr, true, false, List, [], ◌∷◌, arith, ok, err, deposit_already_applied,
  withdraw_already_applied, ==_refl,
}
use ganc_sys.Dict.{member, add, member-add}
use ganc_sys.Text.{Text, text_eq, is_empty, trim_space}
use ganc_sys.Types.{DepositRecord, WithdrawRequest}
use ganc_sys.State.Account.Valid.{IsValid}
use ganc_sys.State.Records.{validate_deposit, validate_withdraw_request}
use ganc_sys.State.Local.{LocalState, apply_deposit, apply_withdrawal}
use ganc_sys.State.Local.Deposits.{apply_deposit-eq-deposited, apply_deposit_cases}
use ganc_sys.State.Local.Withdrawals.{apply_withdrawal-eq-withdrawn, apply_withdrawal_cases}
use ganc_sys.State.Local.Invariant.{apply_deposit-IsValid, apply_withdrawal-IsValid}
use ganc_sys.State.Local.History.{Op, deposit, withdraw, step, run, step-IsValid}

member-add_keeps : (x y : Text) (l : List Text) → member x l ≡ true → member x (add y l) ≡ true
member-add_keeps x y l h = ground (arith, member-add y x l)

member-add_self : (x : Text) (l : List Text) → member x (add x l) ≡ true
member-add_self x l = ground (arith, member-add x x l, ==_refl x)

module _ (sha256 : Text → List ℕ) where
  step-keeps :
      (id nullifier : Text) (op : Op) (s : LocalState)
      → IsValid s.accounts
      → (member id s.applied_deposits ≡ true
          → member id (step sha256 op s).1.applied_deposits ≡ true)
        × (member nullifier s.applied_nullifiers ≡ true
            → member nullifier (step sha256 op s).1.applied_nullifiers ≡ true)
  unfolding step
  step-keeps id nullifier (deposit r) s v = elim (apply_deposit_cases sha256 r s v) [
    | inr (e, refused) ↦ rw refused (λ h. h, λ h. h)
    | inl (k, d, g) ↦
        rw (apply_deposit-eq-deposited sha256 r s v k d g)
          (λ h. member-add_keeps id r.deposit_id s.applied_deposits h, λ h. h)
  ]
  step-keeps id nullifier (withdraw req n) s v = elim (apply_withdrawal_cases sha256 req n s v) [
    | inr (e, refused) ↦ rw refused (λ h. h, λ h. h)
    | inl (k, a, g) ↦
        rw (apply_withdrawal-eq-withdrawn sha256 req n s v k a g)
          (λ h. h, λ h. member-add_keeps nullifier (trim_space n) s.applied_nullifiers h)
  ]

  run-keeps :
      (id nullifier : Text) (ops : List Op) (s : LocalState)
      → IsValid s.accounts
      → (member id s.applied_deposits ≡ true → member id (run sha256 ops s).applied_deposits ≡ true)
        × (member nullifier s.applied_nullifiers ≡ true
            → member nullifier (run sha256 ops s).applied_nullifiers ≡ true)
  unfolding run
  run-keeps id nullifier [] s v = (λ h. h, λ h. h)
  run-keeps id nullifier (op ∷ ops) s v =
      let (first_d, first_n) = step-keeps id nullifier op s v in
      let (rest_d, rest_n) =
        run-keeps id nullifier ops (step sha256 op s).1 (step-IsValid sha256 op s v) in
      (λ h. rest_d (first_d h), λ h. rest_n (first_n h))

  applied_is_recorded :
      (r : DepositRecord) (s : LocalState) {root : Text}
      → IsValid s.accounts
      → (apply_deposit sha256 r s).0 ≡ ok root
      → member r.deposit_id (apply_deposit sha256 r s).1.applied_deposits ≡ true
  applied_is_recorded r s v h = elim (apply_deposit_cases sha256 r s v) [
    | inr (e, refused) ↦ cc
    | inl (k, d, g) ↦
        rw (apply_deposit-eq-deposited sha256 r s v k d g)
          (member-add_self r.deposit_id s.applied_deposits)
  ]

  spent_is_recorded :
      (req : WithdrawRequest) (nullifier : Text) (s : LocalState) {root : Text}
      → IsValid s.accounts
      → (apply_withdrawal sha256 req nullifier s).0 ≡ ok root
      → (is_empty (trim_space nullifier) ≡ false)
        × (member
              (trim_space nullifier)
              (apply_withdrawal sha256 req nullifier s).1.applied_nullifiers
            ≡ true)
  spent_is_recorded req nullifier s v h = elim (apply_withdrawal_cases sha256 req nullifier s v) [
    | inr (e, refused) ↦ cc
    | inl (k, a, g) ↦
        rw (apply_withdrawal-eq-withdrawn sha256 req nullifier s v k a g)
          (g.nullifier_present, member-add_self (trim_space nullifier) s.applied_nullifiers)
  ]

  refuses_known_deposit :
      (r : DepositRecord) (s : LocalState)
      → validate_deposit r ≡ ok tt
      → member r.deposit_id s.applied_deposits ≡ true
      → apply_deposit sha256 r s ≡ (err deposit_already_applied, s)
  unfolding apply_deposit
  refuses_known_deposit r s well_formed seen = ground arith

  refuses_known_nullifier :
      (req : WithdrawRequest) (nullifier : Text) (s : LocalState)
      → validate_withdraw_request req ≡ ok tt
      → is_empty (trim_space nullifier) ≡ false
      → member (trim_space nullifier) s.applied_nullifiers ≡ true
      → apply_withdrawal sha256 req nullifier s ≡ (err withdraw_already_applied, s)
  unfolding apply_withdrawal validate_withdraw_request
  refuses_known_nullifier req nullifier s well_formed present seen = ground arith

  -- Deposits are idempotent: on a state with valid accounts, once a deposit was applied, a well-
  -- formed record of the same id is refused with ErrDepositAlreadyApplied and changes nothing,
  -- after any further operations.
  pub deposit_applied_once :
      (r r' : DepositRecord) (ops : List Op) (s : LocalState) {root : Text}
      → IsValid s.accounts
      → (apply_deposit sha256 r s).0 ≡ ok root
      → r'.deposit_id ≡ r.deposit_id
      → validate_deposit r' ≡ ok tt
      → let later = run sha256 ops (apply_deposit sha256 r s).1 in
        apply_deposit sha256 r' later ≡ (err deposit_already_applied, later)
  deposit_applied_once r r' ops s v h same well_formed =
      let v' = apply_deposit-IsValid sha256 r s v in
      let seen =
        (run-keeps r.deposit_id [] ops (apply_deposit sha256 r s).1 v').0
          (applied_is_recorded r s v h) in
      refuses_known_deposit r' (run sha256 ops (apply_deposit sha256 r s).1) well_formed
        (rw same seen)

  -- No double spend: on a state with valid accounts, once a withdrawal was applied with a
  -- nullifier, every well-formed request with the same nullifier up to surrounding spaces is
  -- refused with ErrWithdrawAlreadyApplied and changes nothing, after any further operations.
  pub nullifier_spent_once :
      (req req' : WithdrawRequest) (nullifier nullifier' : Text) (ops : List Op) (s : LocalState)
      {root : Text}
      → IsValid s.accounts
      → (apply_withdrawal sha256 req nullifier s).0 ≡ ok root
      → trim_space nullifier' ≡ trim_space nullifier
      → validate_withdraw_request req' ≡ ok tt
      → let later = run sha256 ops (apply_withdrawal sha256 req nullifier s).1 in
        apply_withdrawal sha256 req' nullifier' later ≡ (err withdraw_already_applied, later)
  nullifier_spent_once req req' nullifier nullifier' ops s v h same well_formed =
      let v' = apply_withdrawal-IsValid sha256 req nullifier s v in
      let (present, recorded) = spent_is_recorded req nullifier s v h in
      let seen =
        (run-keeps [] (trim_space nullifier) ops (apply_withdrawal sha256 req nullifier s).1 v').1
          recorded in
      refuses_known_nullifier req' nullifier'
        (run sha256 ops (apply_withdrawal sha256 req nullifier s).1) well_formed (rw same present)
        (rw same seen)
