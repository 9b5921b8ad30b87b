-- ===== src/Batch/Witness/Balance.antt =====
-- internal/batch/witness.go: the balances and the nullifiers of a witness account.
use ganc_sys.Prelude.Traverse.{traverse_related}
use ganc_sys.Prelude.{
  ℕ, ◌+◌, ◌<◌, ◌≡◌, refl, ◌==◌, ◌++◌, append-nil, append_assoc, List, [], ◌∷◌, arith, ok,
  Bool-cases, Result-cases, inl, inr, All, All2, length, sum_of, if◌then◌else◌, subst,
}
use ganc_sys.Text.{Text, text_eq, text_beq_iff, trim_space}
use ganc_sys.Text.Decimal.{format}
use ganc_sys.Types.{DepositRecord, WitnessAccount, Witness}
use ganc_sys.State.Account.Valid.{amount_of, amount_of-format}
use ganc_sys.State.Nullifier.{nullifier_for}
use ganc_sys.Batch.Settlement.{
  WithdrawalInput, SettlementInputs, parse_non_negative, parse_positive,
}
use ganc_sys.Batch.Settlement.Amounts.{parse_non_negative-amount_of, parse_positive-eq-ok}
use ganc_sys.Batch.Witness.{
  AccountWitnessSecret, WitnessInputs, OwnerWithdrawals, sum_deposits, collect_withdrawals,
  check_nullifiers, witness_account, witness_accounts, build_witness, nonce_field,
}

-- What the settlement moves for an owner.
abbrev pub deposit_of : Text → DepositRecord → ℕ
deposit_of owner d = if d.owner == owner then amount_of d.amount else 0

abbrev pub withdrawal_of : Text → WithdrawalInput → ℕ
withdrawal_of owner w = if w.request.owner == owner then amount_of w.request.amount else 0

abbrev pub deposited_by : Text → SettlementInputs → ℕ
deposited_by owner settlement = sum_of (deposit_of owner) settlement.deposits

abbrev pub withdrawn_by : Text → SettlementInputs → ℕ
withdrawn_by owner settlement = sum_of (withdrawal_of owner) settlement.withdrawals

sum_deposits_sound :
    (owner : Text) (n : ℕ) (ds : List DepositRecord) (m : ℕ)
    → sum_deposits owner n ds ≡ ok m
    → m ≡ n + sum_of (deposit_of owner) ds
unfolding sum_deposits
sum_deposits_sound owner n [] m h = ground arith
sum_deposits_sound owner n (d ∷ ds) m h = elim (Bool-cases (d.owner == owner)) [
  | inr other ↦ ground (arith, sum_deposits_sound owner n ds m)
  | inl own ↦ elim (Result-cases (parse_positive d.amount)) [
    | inr (e, bad) ↦ absurd (ground arith)
    | inl (a, good) ↦
        ground (arith, parse_positive-eq-ok d.amount a good, sum_deposits_sound owner (n + a) ds m)
  ]
]

-- The owner's withdrawals, in order.
abbrev owned : Text → List WithdrawalInput → List WithdrawalInput
owned owner [] = []
owned owner (w ∷ ws) =
    let rest = owned owner ws in if w.request.owner == owner then w ∷ rest else rest

collect_withdrawals_sound :
    (owner : Text) (found : OwnerWithdrawals) (ws : List WithdrawalInput) (out : OwnerWithdrawals)
    → collect_withdrawals owner found ws ≡ ok out
    → (out.sum ≡ found.sum + sum_of (withdrawal_of owner) ws)
      × (out.entries ≡ found.entries ++ owned owner ws)
unfolding collect_withdrawals
collect_withdrawals_sound owner found [] out h = ground (arith, append-nil found.entries)
collect_withdrawals_sound owner found (w ∷ ws) out h =
    elim (Bool-cases (w.request.owner == owner)) [
      | inr other ↦ ground (arith, collect_withdrawals_sound owner found ws out)
      | inl own ↦ elim (Result-cases (parse_positive w.request.amount)) [
        | inr (e, bad) ↦ absurd (ground arith)
        | inl (a, good) ↦ ground (
          arith,
          parse_positive-eq-ok w.request.amount a good,
          collect_withdrawals_sound owner
              (record {
                sum = found.sum + a;
                last_nonce = w.request.nonce;
                entries = found.entries ++ (w ∷ []);
              })
              ws out,
          append_assoc found.entries (w ∷ []) (owned owner ws),
        )
      ]
    ]

module _ (sha256 : Text → List ℕ) where
  -- The nullifier is the secret's, for the nonce of the request.
  abbrev pub IsBound : Text → WithdrawalInput → Type 0
  IsBound secret w =
      nullifier_for sha256 secret (format (amount_of w.request.nonce)) ≡ ok w.nullifier

  check_nullifiers_sound :
      (secret : Text) (ws : List WithdrawalInput)
      → check_nullifiers sha256 secret ws ≡ ok tt
      → All (IsBound secret) ws
  unfolding check_nullifiers
  check_nullifiers_sound secret [] h = tt
  check_nullifiers_sound secret (w ∷ ws) h =
      elim (Result-cases (parse_non_negative w.request.nonce)) [
        | inr (e, bad) ↦ absurd (ground arith)
        | inl (n, nonce) ↦ elim (Result-cases (nullifier_for sha256 secret (format n))) [
          | inr (e, bad) ↦ absurd (ground arith)
          | inl (rederived, good) ↦ ground (
            arith,
            parse_non_negative-amount_of w.request.nonce n nonce,
            text_beq_iff rederived w.nullifier,
            check_nullifiers_sound secret ws,
          )
        ]
      ]

  -- An entry of the witness for a secret, against the settlement: its balances differ by what the
  -- settlement moves for the owner, and its secret gives the nullifiers of the owner's withdrawals.
  pub record IsWitnessed (settlement : SettlementInputs) (acc : AccountWitnessSecret)
      (wa : WitnessAccount) : Type 0 where
    pub owner : wa.owner ≡ trim_space acc.owner
    pub secret : wa.user_secret ≡ trim_space acc.user_secret
    pub old_balance : wa.old_balance ≡ format (amount_of acc.old_balance)
    pub new_balance : wa.new_balance ≡ format (amount_of acc.new_balance)
    pub moved : 0 < deposited_by wa.owner settlement + withdrawn_by wa.owner settlement
    pub conserved :
        amount_of wa.new_balance + withdrawn_by wa.owner settlement
        ≡ amount_of wa.old_balance + deposited_by wa.owner settlement
    pub bound : All (IsBound wa.user_secret) (owned wa.owner settlement.withdrawals)

  witness_account_sound :
      (settlement : SettlementInputs) (acc : AccountWitnessSecret) (wa : WitnessAccount)
      → witness_account sha256 settlement acc ≡ ok wa
      → IsWitnessed settlement acc wa
  unfolding witness_account
  witness_account_sound settlement acc wa h =
      let owner = trim_space acc.owner in
      let secret = trim_space acc.user_secret in
      let none_found : OwnerWithdrawals = record { sum = 0; last_nonce = []; entries = [] } in
      elim (Result-cases (parse_non_negative acc.old_balance)) [
        | inr (e, bad) ↦ absurd (ground arith)
        | inl (old, hold) ↦ elim (Result-cases (parse_non_negative acc.new_balance)) [
          | inr (e, bad) ↦ absurd (ground arith)
          | inl (new, hnew) ↦ elim (Result-cases (sum_deposits owner 0 settlement.deposits)) [
            | inr (e, bad) ↦ absurd (ground arith)
            | inl (dep, hdep) ↦
                elim (Result-cases (collect_withdrawals owner none_found settlement.withdrawals)) [
                  | inr (e, bad) ↦ absurd (ground arith)
                  | inl (found, hfound) ↦
                      elim (Result-cases (check_nullifiers sha256 secret found.entries)) [
                        | inr (e, bad) ↦ absurd (ground arith)
                        | inl (u, hnull) ↦
                            elim (Result-cases (nonce_field sha256 found.last_nonce)) [
                              | inr (e, bad) ↦ absurd (ground arith)
                              | inl (nonce, hnonce) ↦
                                  let whole : wa ≡ record {
                                    owner = owner;
                                    user_secret = secret;
                                    nonce = nonce;
                                    old_balance = format old;
                                    new_balance = format new;
                                  } =
                                    ground arith in
                                  let total =
                                    collect_withdrawals_sound owner none_found
                                      settlement.withdrawals found hfound in
                                  ground (
                                    arith,
                                    whole,
                                    parse_non_negative-amount_of acc.old_balance old hold,
                                    parse_non_negative-amount_of acc.new_balance new hnew,
                                    amount_of-format old,
                                    amount_of-format new,
                                    sum_deposits_sound owner 0 settlement.deposits dep hdep,
                                    total.0,
                                    subst (All (IsBound secret)) total.1
                                        (check_nullifiers_sound secret found.entries hnull),
                                  )
                            ]
                      ]
                ]
          ]
        ]
      ]

  build_accounts_sound :
      (settlement : SettlementInputs) (path : List Text) (accs : List AccountWitnessSecret)
      (wit : Witness)
      → build_witness sha256
          (record { settlement = settlement; accounts = accs; state_path = path })
        ≡ ok wit
      → All2 (IsWitnessed settlement) accs wit.accounts
        × (0 < length accs)
        × (wit.state_path ≡ path)
  unfolding build_witness witness_accounts
  build_accounts_sound settlement path [] wit h = absurd (ground arith)
  build_accounts_sound settlement path (a ∷ rest) wit h =
      elim (Result-cases (witness_accounts sha256 settlement (a ∷ rest))) [
        | inr (e, bad) ↦ absurd (ground arith)
        | inl (out, good) ↦
            let whole : wit ≡ record { accounts = out; state_path = path } = ground arith in
            rw whole (
              traverse_related (witness_account sha256 settlement) (IsWitnessed settlement)
                  (witness_account_sound settlement) (a ∷ rest) out good,
              omega arith,
              refl,
            )
      ]

  -- A witness that is built has at least one account, one for each account secret in order, and
  -- keeps the state path; each account's balances are the secret's in canonical form, satisfy new
  -- balance + withdrawals = old balance + deposits over the settlement entries of its owner, of
  -- which there are some, and its secret derives the nullifier of each of the owner's withdrawals
  -- from the nonce of the request.
  pub build_witness_sound :
      (input : WitnessInputs) (wit : Witness)
      → build_witness sha256 input ≡ ok wit
      → All2 (IsWitnessed input.settlement) input.accounts wit.accounts
        × (0 < length input.accounts)
        × (wit.state_path ≡ input.state_path)
  build_witness_sound input wit h =
      build_accounts_sound input.settlement input.state_path input.accounts wit h
