-- ===== src/Batch/Commitments.antt =====
-- internal/batch/commitments.go: the four roots that bind a batch.
use ganc_sys.Prelude.{ℕ, List, [], ◌∷◌, ◌++◌}
use ganc_sys.Text.{Text, codes}
use ganc_sys.Hash.{sha256_hex}
use ganc_sys.Types.{SettlementDeposit, SettlementWithdrawal, SettlementUpdate, BatchCommitments}

abbrev pub deposits_root_domain_tag : Text
deposits_root_domain_tag = codes "zkdex/batch/depositsRoot/v0"

abbrev pub withdrawals_root_domain_tag : Text
withdrawals_root_domain_tag = codes "zkdex/batch/withdrawalsRoot/v0"

abbrev pub nullifiers_root_domain_tag : Text
nullifiers_root_domain_tag = codes "zkdex/batch/nullifiersRoot/v0"

abbrev pub withdraw_outputs_root_domain_tag : Text
withdraw_outputs_root_domain_tag = codes "zkdex/batch/withdrawOutputsRoot/v0"

-- Fields with `|` between them, and `;` behind the last.
unfoldable pub join_fields : List Text → Text
join_fields [] = b';' ∷ []
join_fields (f ∷ []) = f ++ (b';' ∷ [])
join_fields (f ∷ g ∷ fs) = f ++ (b'|' ∷ join_fields (g ∷ fs))

unfoldable pub concat_entries {ℓ} : {A : Type ℓ} → (A → List Text) → List A → Text
unfolding join_fields
concat_entries fields [] = []
concat_entries fields (x ∷ xs) = join_fields (fields x) ++ concat_entries fields xs

abbrev pub deposit_fields : SettlementDeposit → List Text
deposit_fields d = d.deposit_id ∷ d.owner ∷ d.denom ∷ d.amount ∷ []

abbrev pub withdrawal_fields : SettlementWithdrawal → List Text
withdrawal_fields w =
    w.withdraw_id ∷ w.owner ∷ w.denom ∷ w.amount ∷ w.destination ∷ w.destination_hash ∷ w.nullifier
    ∷ []

abbrev pub nullifier_fields : SettlementWithdrawal → List Text
nullifier_fields w = w.nullifier ∷ []

abbrev pub output_fields : SettlementWithdrawal → List Text
output_fields w = w.destination_hash ∷ w.amount ∷ w.denom ∷ []

module _ (sha256 : Text → List ℕ) where
  unfoldable pub deposits_root : List SettlementDeposit → Text
  unfolding concat_entries
  deposits_root items =
      sha256_hex sha256 (deposits_root_domain_tag ++ (b'|' ∷ concat_entries deposit_fields items))

  unfoldable pub withdrawals_root : List SettlementWithdrawal → Text
  unfolding concat_entries
  withdrawals_root items =
      sha256_hex sha256
        (withdrawals_root_domain_tag ++ (b'|' ∷ concat_entries withdrawal_fields items))

  unfoldable pub nullifiers_root : List SettlementWithdrawal → Text
  unfolding concat_entries
  nullifiers_root items =
      sha256_hex sha256
        (nullifiers_root_domain_tag ++ (b'|' ∷ concat_entries nullifier_fields items))

  unfoldable pub withdraw_outputs_root : List SettlementWithdrawal → Text
  unfolding concat_entries
  withdraw_outputs_root items =
      sha256_hex sha256
        (withdraw_outputs_root_domain_tag ++ (b'|' ∷ concat_entries output_fields items))

  -- `BuildCommitments`
  unfoldable pub build_commitments : SettlementUpdate → BatchCommitments
  build_commitments upd = record {
    deposits_root = deposits_root upd.deposits;
    withdrawals_root = withdrawals_root upd.withdrawals;
    nullifiers_root = nullifiers_root upd.withdrawals;
    withdraw_outputs_root = withdraw_outputs_root upd.withdrawals;
  }
