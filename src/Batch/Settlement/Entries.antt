-- ===== src/Batch/Settlement/Entries.antt =====
-- internal/batch/builder.go: the records that pass, and their entries.
use ganc_sys.Prelude.Traverse.{traverse_sound, traverse_complete}
use ganc_sys.Prelude.{
  ==_refl, ap, sym, ◌∙◌, ℕ, ◌<◌, ◌≡◌, ◌↔◌, map, List, arith, ok, Result-cases, inl, inr, false, All,
}
use ganc_sys.Text.{Text, text_eq, text_beq_iff, is_empty, trim_space}
use ganc_sys.Text.Decimal.{format}
use ganc_sys.Types.{DepositRecord, SettlementDeposit, SettlementWithdrawal}
use ganc_sys.State.Account.{parse_non_negative_amount}
use ganc_sys.State.Account.Valid.{amount_of}
use ganc_sys.State.Address.{withdraw_address_hash}
use ganc_sys.Batch.Settlement.{
  WithdrawalInput, parse_non_negative, parse_positive, validate_deposit, validate_withdraw,
  validate_hex, settle_deposit, settle_deposits, settle_withdrawal, settle_withdrawals,
}
use ganc_sys.Batch.Settlement.Amounts.{
  parse_non_negative-amount_of, parse_positive-eq-ok, parse_positive-amount_of,
  parse_non_negative_agrees,
}

-- A deposit that a batch of this denom takes.
pub record IsSettleableDeposit (denom : Text) (d : DepositRecord) : Type 0 where
  pub id : is_empty (trim_space d.deposit_id) ≡ false
  pub owner : is_empty (trim_space d.owner) ≡ false
  pub denom_present : is_empty (trim_space d.denom) ≡ false
  pub amount : 0 < amount_of d.amount
  pub same : d.denom ≡ denom

-- The entry of a deposit: its fields as they are, and its amount in canonical form.
abbrev pub deposit_entry : DepositRecord → SettlementDeposit
deposit_entry d = record {
  deposit_id = d.deposit_id;
  owner = d.owner;
  denom = d.denom;
  amount = format (amount_of d.amount);
}

settle_deposit_sound :
    (denom : Text) (d : DepositRecord) (e : SettlementDeposit)
    → settle_deposit denom d ≡ ok e
    → IsSettleableDeposit denom d × (e ≡ deposit_entry d)
unfolding settle_deposit validate_deposit
settle_deposit_sound denom d e h = elim (Result-cases (parse_positive d.amount)) [
  | inr (e', bad) ↦ absurd (ground arith)
  | inl (a, good) ↦ ground (arith, parse_positive-eq-ok d.amount a good, text_beq_iff d.denom denom)
]

settle_deposit_complete :
    (denom : Text) (d : DepositRecord)
    → IsSettleableDeposit denom d
    → settle_deposit denom d ≡ ok (deposit_entry d)
unfolding settle_deposit validate_deposit
settle_deposit_complete denom d h = ground (
  arith,
  h.id,
  h.owner,
  h.denom_present,
  parse_positive-amount_of d.amount h.amount,
  text_beq_iff d.denom denom,
  h.same,
)

-- A withdrawal that a batch of this denom takes.
pub record IsSettleableWithdrawal (sha256 : Text → List ℕ) (denom : Text) (w : WithdrawalInput)
    : Type 0 where
  pub id : is_empty (trim_space w.request.withdraw_id) ≡ false
  pub owner : is_empty (trim_space w.request.owner) ≡ false
  pub denom_present : is_empty (trim_space w.request.denom) ≡ false
  pub destination : is_empty (trim_space w.request.destination) ≡ false
  pub amount : 0 < amount_of w.request.amount
  pub nonce : parse_non_negative_amount w.request.nonce ≡ ok (amount_of w.request.nonce)
  pub same : w.request.denom ≡ denom
  pub nullifier : validate_hex w.nullifier ≡ ok tt
  pub hash_shape : validate_hex w.destination_hash ≡ ok tt
  pub hash : withdraw_address_hash sha256 w.request.destination ≡ ok w.destination_hash

abbrev pub withdrawal_entry : WithdrawalInput → SettlementWithdrawal
withdrawal_entry w = record {
  withdraw_id = w.request.withdraw_id;
  owner = w.request.owner;
  denom = w.request.denom;
  amount = format (amount_of w.request.amount);
  destination = w.request.destination;
  destination_hash = w.destination_hash;
  nullifier = w.nullifier;
}

module _ (sha256 : Text → List ℕ) (denom : Text) (w : WithdrawalInput) where
  settle_withdrawal_sound :
      (e : SettlementWithdrawal)
      → settle_withdrawal sha256 denom w ≡ ok e
      → IsSettleableWithdrawal sha256 denom w × (e ≡ withdrawal_entry w)
  unfolding settle_withdrawal validate_withdraw
  settle_withdrawal_sound e h = elim (Result-cases (parse_positive w.request.amount)) [
    | inr (e', bad) ↦ absurd (ground arith)
    | inl (a, good) ↦ elim (Result-cases (parse_non_negative w.request.nonce)) [
      | inr (e', bad) ↦ absurd (ground arith)
      | inl (n, nonce) ↦ elim (Result-cases (withdraw_address_hash sha256 w.request.destination)) [
        | inr (e', bad) ↦ absurd (ground arith)
        | inl (rederived, hash) ↦ ground (
          arith,
          parse_positive-eq-ok w.request.amount a good,
          (parse_non_negative_agrees w.request.nonce n).0 nonce,
          parse_non_negative-amount_of w.request.nonce n nonce,
          text_beq_iff w.request.denom denom,
          text_beq_iff rederived w.destination_hash,
        )
      ]
    ]
  ]

  settle_withdrawal_complete :
      IsSettleableWithdrawal sha256 denom w
      → settle_withdrawal sha256 denom w ≡ ok (withdrawal_entry w)
  unfolding settle_withdrawal validate_withdraw
  settle_withdrawal_complete h = ground (
    arith,
    h.id,
    h.owner,
    h.denom_present,
    h.destination,
    parse_positive-amount_of w.request.amount h.amount,
    (parse_non_negative_agrees w.request.nonce (amount_of w.request.nonce)).1 h.nonce,
    h.nullifier,
    h.hash_shape,
    h.hash,
    text_beq_iff w.request.denom denom,
    h.same,
    ==_refl w.destination_hash,
  )

-- The deposits of a batch pass exactly if each is settleable, and become their entries in order.
pub settle_deposits_iff :
    (denom : Text) (ds : List DepositRecord) (out : List SettlementDeposit)
    → (settle_deposits denom ds ≡ ok out)
      ↔ (All (IsSettleableDeposit denom) ds × (out ≡ map deposit_entry ds))
unfolding settle_deposits
settle_deposits_iff denom ds out = (
  traverse_sound (settle_deposit denom) (IsSettleableDeposit denom) deposit_entry
      (settle_deposit_sound denom) ds out,
  λ h.
      traverse_complete (settle_deposit denom) (IsSettleableDeposit denom) deposit_entry
        (settle_deposit_complete denom) ds h.0
      ∙ ap ok (sym h.1),
)

-- So do its withdrawals.
pub settle_withdrawals_iff :
    (sha256 : Text → List ℕ) (denom : Text) (ws : List WithdrawalInput)
    (out : List SettlementWithdrawal)
    → (settle_withdrawals sha256 denom ws ≡ ok out)
      ↔ (All (IsSettleableWithdrawal sha256 denom) ws × (out ≡ map withdrawal_entry ws))
unfolding settle_withdrawals
settle_withdrawals_iff sha256 denom ws out = (
  traverse_sound (settle_withdrawal sha256 denom) (IsSettleableWithdrawal sha256 denom)
      withdrawal_entry (settle_withdrawal_sound sha256 denom) ws out,
  λ h.
      traverse_complete (settle_withdrawal sha256 denom) (IsSettleableWithdrawal sha256 denom)
        withdrawal_entry (settle_withdrawal_complete sha256 denom) ws h.0
      ∙ ap ok (sym h.1),
)
