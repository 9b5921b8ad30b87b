-- ===== src/Batch/Settlement/Build.antt =====
-- internal/batch/builder.go: the inputs that pass `Build`, and the update for them.
use ganc_sys.Prelude.{
  ℕ, ◌+◌, ◌%◌, ◌^◌, ◌≡◌, ◌≢◌, ◌↔◌, refl, ◌++◌, map, List, arith, ok, err, Error, Bool-cases,
  Result-cases, inl, inr, false, All,
}
use ganc_sys.Text.{Text, text_eq, text_beq_iff, codes}
use ganc_sys.Text.Decimal.{format}
use ganc_sys.Types.{SettlementDeposit, SettlementWithdrawal, SettlementUpdate}
use ganc_sys.Batch.Settlement.{
  SettlementInputs, SettlementUpdateBuilder, validate_root, pick_batch_denom, no_entries,
  settle_deposits, settle_withdrawals, check_inputs, build_settlement,
}
use ganc_sys.Batch.Settlement.Entries.{
  IsSettleableDeposit, IsSettleableWithdrawal, deposit_entry, withdrawal_entry, settle_deposits_iff,
  settle_withdrawals_iff,
}

-- The update that the builder makes of inputs that pass, and the builder after it.
abbrev pub next_seq : SettlementUpdateBuilder → SettlementUpdateBuilder
next_seq b = record { seq = (b.seq + 1) % 2 ^ 64 }

abbrev pub settlement_of : SettlementInputs → SettlementUpdateBuilder → SettlementUpdate
settlement_of input b = record {
  batch_id = codes "batch-" ++ format (next_seq b).seq;
  old_state_root = input.old_state_root;
  new_state_root = input.new_state_root;
  deposits = map deposit_entry input.deposits;
  withdrawals = map withdrawal_entry input.withdrawals;
}

module _ (sha256 : Text → List ℕ) where
  -- Inputs that pass: two different roots, at least one entry, and entries of one denom, the first's.
  pub record IsSettleable (input : SettlementInputs) (denom : Text) : Type 0 where
    pub old_root : validate_root input.old_state_root ≡ ok tt
    pub new_root : validate_root input.new_state_root ≡ ok tt
    pub moves : input.old_state_root ≢ input.new_state_root
    pub some_entry : no_entries sha256 input ≡ false
    pub first : pick_batch_denom input.deposits input.withdrawals ≡ ok denom
    pub deposits : All (IsSettleableDeposit denom) input.deposits
    pub withdrawals : All (IsSettleableWithdrawal sha256 denom) input.withdrawals

  check_inputs_sound :
      (input : SettlementInputs) (out : List SettlementDeposit × List SettlementWithdrawal)
      → check_inputs sha256 input ≡ ok out
      → ((denom : Text) × IsSettleable input denom)
        × (out ≡ (map deposit_entry input.deposits, map withdrawal_entry input.withdrawals))
  unfolding check_inputs
  check_inputs_sound input out h = elim (Result-cases (validate_root input.old_state_root)) [
    | inr (e, bad) ↦ absurd (ground arith)
    | inl (u, old) ↦ elim (Result-cases (validate_root input.new_state_root)) [
      | inr (e, bad) ↦ absurd (ground arith)
      | inl (v, new) ↦ elim (Bool-cases (no_entries sha256 input)) [
        | inl bad ↦ absurd (ground arith)
        | inr entries ↦ elim (Result-cases (pick_batch_denom input.deposits input.withdrawals)) [
          | inr (e, bad) ↦ absurd (ground arith)
          | inl (denom, pick) ↦ elim (Result-cases (settle_deposits denom input.deposits)) [
            | inr (e, bad) ↦ absurd (ground arith)
            | inl (ds, deps) ↦
                elim (Result-cases (settle_withdrawals sha256 denom input.withdrawals)) [
                  | inr (e, bad) ↦ absurd (ground arith)
                  | inl (ws, withs) ↦
                      let (hd, ed) = (settle_deposits_iff denom input.deposits ds).0 deps in
                      let (hw, ew) =
                        (settle_withdrawals_iff sha256 denom input.withdrawals ws).0 withs in
                      (
                        (
                          denom,
                          record {
                            old_root = old;
                            new_root = new;
                            moves =
                                ground
                                  (arith, text_beq_iff input.old_state_root input.new_state_root);
                            some_entry = entries;
                            first = pick;
                            deposits = hd;
                            withdrawals = hw;
                          },
                        ),
                        ground arith,
                      )
                ]
          ]
        ]
      ]
    ]
  ]

  check_inputs_complete :
      (input : SettlementInputs) (denom : Text)
      → IsSettleable input denom
      → check_inputs sha256 input
        ≡ ok (map deposit_entry input.deposits, map withdrawal_entry input.withdrawals)
  unfolding check_inputs
  check_inputs_complete input denom h = ground (
    arith,
    h.old_root,
    h.new_root,
    h.moves,
    h.some_entry,
    h.first,
    text_beq_iff input.old_state_root input.new_state_root,
    (settle_deposits_iff denom input.deposits (map deposit_entry input.deposits)).1
        (h.deposits, refl),
    (settle_withdrawals_iff sha256 denom input.withdrawals
          (map withdrawal_entry input.withdrawals)).1
        (h.withdrawals, refl),
  )

  -- The settlement builder succeeds exactly on inputs with two different well-shaped roots, at
  -- least one entry, and entries that are each valid and of the first one's denom, with destination
  -- hashes that are those of the destinations; the update then has the entries in order with
  -- canonical amounts, a batch id of the next sequence number, and the builder's sequence number
  -- advanced by one modulo 2^64.
  pub build_settlement_iff :
      (input : SettlementInputs) (b b' : SettlementUpdateBuilder) (upd : SettlementUpdate)
      → (build_settlement sha256 input b ≡ (ok upd, b')) ↔ (
          ((denom : Text) × IsSettleable input denom)
          × (upd ≡ settlement_of input b)
          × (b' ≡ next_seq b))
  unfolding build_settlement
  build_settlement_iff input b b' upd = elim (Result-cases (check_inputs sha256 input)) [
    | inr (e, bad) ↦ (
      λ h. absurd (ground arith),
      λ h. absurd (ground (arith, check_inputs_complete input h.0.0 h.0.1)),
    )
    | inl (out, good) ↦
        let (settleable, whole) = check_inputs_sound input out good in
        (λ h. (settleable, ground arith, ground arith), λ h. ground arith)
  ]

  -- A refusal leaves the sequence number of the builder.
  pub build_settlement_refused :
      (input : SettlementInputs) (b b' : SettlementUpdateBuilder) (e : Error)
      → build_settlement sha256 input b ≡ (err e, b')
      → b' ≡ b
  unfolding build_settlement
  build_settlement_refused input b b' e h = elim (Result-cases (check_inputs sha256 input)) [
    | inr (e', bad) ↦ ground arith
    | inl (out, good) ↦ absurd (ground arith)
  ]
