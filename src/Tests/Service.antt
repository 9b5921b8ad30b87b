-- ===== src/Tests/Service.antt =====
-- A deposit and a withdrawal in the store, and the theorems about the service applied to them.
use mathlib.Core.List.{Memᴰ}
use ganc_sys.Prelude.{
  ◌+◌, ◌≡◌, ◌≢◌, ◌↔◌, refl, inr, Bool, List, [], ◌∷◌, map, ok, All, length, arith,
}
use ganc_sys.Dict.{member}
use ganc_sys.Text.{Text, text_beq_iff, codes, trim_space}
use ganc_sys.Repository.Settlement.{
  OffchainSettlementRepository, PendingDepositTransition, PendingWithdrawalTransition,
  status_pending,
}
use ganc_sys.Repository.Settlement.Batches.{mark_included, reopen_included}
use ganc_sys.Repository.Settlement.Reopen.{
  noted_deposit, noted_withdrawal, reopen_included-mark_included,
}
use ganc_sys.Batch.PublicInputs.Contract.{IsProvable, public_inputs_of}
use ganc_sys.Service.Ordering.{
  PendingSettlementTransition, of_deposit, of_withdrawal, order_pending_settlement_transitions,
  bound_single_withdrawal_prefix,
}
use ganc_sys.Service.Ordering.Chain.{IsChain, transitions_of, order_sound, order_complete}
use ganc_sys.Service.Ordering.Prefix.{
  IsBoundedPrefix, bound_single_withdrawal_prefix-IsBoundedPrefix,
}
use ganc_sys.Service.Guard.{
  SubmitBatchRequestBody, IsPinned, guard_proof_contract, guard_proof_contract_iff,
}
use ganc_sys.Tests.Data.{alice, usdc}

abbrev pub deposit_row : PendingDepositTransition
deposit_row = record {
  deposit_id = codes "dep-1";
  owner_address = alice;
  denom = usdc;
  amount = codes "100";
  root_before = codes "0x0";
  root_after = codes "0x1";
  balance_before = codes "0";
  balance_after = codes "100";
  status = status_pending;
  batch_id = [];
  tx_hash = [];
  error_message = [];
}

abbrev withdrawal_row : PendingWithdrawalTransition
withdrawal_row = record {
  withdraw_id = codes "wd-1";
  owner_address = alice;
  denom = usdc;
  amount = codes "40";
  destination_address = codes "cosmos1dest";
  nonce = codes "1";
  signature = [];
  nullifier = codes "0xn1";
  destination_hash = codes "0xd1";
  root_before = codes "0x1";
  root_after = codes "0x2";
  balance_before = codes "100";
  balance_after = codes "60";
  status = status_pending;
  batch_id = [];
  tx_hash = [];
  error_message = [];
}

abbrev chain : List PendingSettlementTransition
chain = of_deposit deposit_row ∷ of_withdrawal withdrawal_row ∷ []

ordered :
    order_pending_settlement_transitions (codes "0x0") (deposit_row ∷ []) (withdrawal_row ∷ [])
    ≡ ok chain
unfolding trim_space ganc_sys.Text.is_space ganc_sys.Text.text_beq
    order_pending_settlement_transitions ganc_sys.Service.Ordering.add_pending_transition
    ganc_sys.Service.Ordering.add_transitions ganc_sys.Service.Ordering.follow_roots
    ganc_sys.Dict.lookup ganc_sys.Dict.insert
ordered = refl

order_sound_example :
    IsChain (codes "0x0") chain
    × All (λ t. Memᴰ t (transitions_of (deposit_row ∷ []) (withdrawal_row ∷ []))) chain
    × (length chain ≡ 1 + 1)
order_sound_example =
    order_sound (codes "0x0") (deposit_row ∷ []) (withdrawal_row ∷ []) chain ordered

roots_differ : codes "0x0" ≢ codes "0x1"
unfolding ganc_sys.Text.text_beq
roots_differ e =
    let h : Bool.false ≡ Bool.true = (text_beq_iff (codes "0x0") (codes "0x1")).1 e in
    absurd (ground arith)

order_complete_example :
    order_pending_settlement_transitions (codes "0x0") (deposit_row ∷ []) (withdrawal_row ∷ [])
    ≡ ok chain
unfolding trim_space ganc_sys.Text.is_space
order_complete_example =
    order_complete (codes "0x0") (deposit_row ∷ []) (withdrawal_row ∷ []) chain
      ((refl, refl), ((refl, refl), tt)) ((roots_differ, tt), (tt, tt)) (refl, (refl, tt))
      (Memᴰ.head refl, (Memᴰ.tail (Memᴰ.head refl), tt)) refl

bound_single_withdrawal_prefix-IsBoundedPrefix_example :
    IsBoundedPrefix chain (bound_single_withdrawal_prefix chain)
bound_single_withdrawal_prefix-IsBoundedPrefix_example =
    bound_single_withdrawal_prefix-IsBoundedPrefix chain

abbrev pub store : OffchainSettlementRepository
store = record {
  has_pool = Bool.true;
  cursors = [];
  deposits = deposit_row ∷ [];
  withdrawals = withdrawal_row ∷ [];
}

abbrev pub batch_1 : Text
batch_1 = codes "batch-1"

abbrev deposit_ids : List Text
deposit_ids = codes "dep-1" ∷ []

abbrev withdraw_ids : List Text
withdraw_ids = codes "wd-1" ∷ []

abbrev store_included : OffchainSettlementRepository
store_included = (mark_included batch_1 deposit_ids withdraw_ids store).1

inclusion : mark_included batch_1 deposit_ids withdraw_ids store ≡ (ok tt, store_included)
unfolding ganc_sys.Text.text_beq mark_included ganc_sys.Repository.Settlement.Batches.included
    ganc_sys.Repository.Sql.update_each ganc_sys.Repository.Sql.update_where
    ganc_sys.Repository.Sql.count_where member
inclusion = refl

no_batch_yet : ◌≢◌ {A = Text} [] batch_1
no_batch_yet e = cc

reopen_included-mark_included_example :
    reopen_included batch_1 (codes "prove failed") store_included ≡ (
      ok tt,
      record store {
        deposits = map (noted_deposit (codes "prove failed") deposit_ids) store.deposits;
        withdrawals = map (noted_withdrawal (codes "prove failed") withdraw_ids) store.withdrawals;
      },
    )
reopen_included-mark_included_example =
    reopen_included-mark_included batch_1 (codes "prove failed") deposit_ids withdraw_ids store
      store_included ((no_batch_yet, inr (refl, refl, refl)), tt)
      ((no_batch_yet, inr (refl, refl, refl)), tt) (omega arith) inclusion

abbrev pub submission : SubmitBatchRequestBody
submission = record {
  settlement_update = record {
    batch_id = batch_1;
    old_state_root = codes "0x0";
    new_state_root = codes "0x2";
    deposits = [];
    withdrawals = [];
  };
  batch_commitments = record {
    deposits_root = codes "0xd";
    withdrawals_root = codes "0xw";
    nullifiers_root = codes "0xn";
    withdraw_outputs_root = codes "0xo";
  };
  proof_bundle = record {
    proof = codes "0xp";
    public_inputs =
        codes "0x0" ∷ codes "0x2" ∷ codes "0xd" ∷ codes "0xw" ∷ codes "0xn" ∷ codes "0xo" ∷ [];
    verification_key_id = codes "vk-1 ";
  };
}

guard_proof_contract_iff_example : (guard_proof_contract (codes "vk-1") submission ≡ ok tt) ↔ (
    IsPinned (codes "vk-1") submission.proof_bundle
    × IsProvable submission.settlement_update submission.batch_commitments
    × (submission.proof_bundle.public_inputs
        ≡ public_inputs_of submission.settlement_update submission.batch_commitments))
guard_proof_contract_iff_example = guard_proof_contract_iff (codes "vk-1") submission
