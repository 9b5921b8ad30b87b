-- ===== src/Service/PendingBatch/Outcome.antt =====
-- internal/service/offchain_settlement_service.go: the parts of a pending batch.
use ganc_sys.Prelude.{
  ◌⊎◌, ℕ, ◌≡◌, refl, ap, sym, subst, ◌∙◌, ◌++◌, map, List, [], arith, All2, some, Option-cases, ok,
  Result-cases, inl, inr, Bool-cases, ◌≤◌,
}
use ganc_sys.Dict.{member}
use ganc_sys.Text.{Text, text_eq}
use ganc_sys.Repository.Sql.{select_where}
use ganc_sys.Repository.Settlement.{
  OffchainStateCursor, PendingDepositTransition, PendingWithdrawalTransition,
}
use ganc_sys.Repository.Settlement.Batches.{mark_included}
use ganc_sys.Batch.Settlement.{SettlementInputs, build_settlement}
use ganc_sys.Batch.Settlement.Build.{IsSettleable, settlement_of, build_settlement_iff}
use ganc_sys.Batch.Commitments.{build_commitments}
use ganc_sys.Batch.Witness.{AccountWitnessSecret, build_witness}
use ganc_sys.Batch.Witness.Balance.{IsWitnessed, build_witness_sound}
use ganc_sys.Batch.Apply.{AccountSecret, BuildOutput}
use ganc_sys.Service.Ordering.{
  PendingSettlementTransition, order_pending_settlement_transitions, bound_single_withdrawal_prefix,
}
use ganc_sys.Service.Ordering.Chain.{IsChain, order_sound}
use ganc_sys.Service.Ordering.Prefix.{
  withdrawals_in, bound_single_withdrawal_prefix-IsBoundedPrefix, IsChain-prefix,
}
use ganc_sys.Service.WitnessAccounts.{build_witness_accounts_from_pending_transitions}
use ganc_sys.Service.Settlement.{
  OffchainSettlementService, get_or_init_cursor, list_pending_settlement,
}
use ganc_sys.Service.PendingBatch.{
  last_root, selected_deposits, selected_withdrawals, deposit_record_of, withdrawal_input_of,
  nothing_pending, assemble_batch, build_pending_batch,
}

module _ (sha256 : Text → List ℕ) where
  -- What `assemble_batch` makes of the rows that were selected.
  pub record IsAssembled (old_root new_root : Text) (deposits : List PendingDepositTransition)
      (withdrawals : List PendingWithdrawalTransition) (out : BuildOutput)
      (s s' : OffchainSettlementService) : Type 0 where
    pub settlement : SettlementInputs
    pub inputs : settlement ≡ record {
      old_state_root = old_root;
      new_state_root = new_root;
      deposits = map deposit_record_of deposits;
      withdrawals = map withdrawal_input_of withdrawals;
    }
    pub denom : Text
    pub settleable : IsSettleable sha256 settlement denom
    pub update : out.settlement_update ≡ settlement_of settlement s.settlement_builder
    pub commitments : out.batch_commitments ≡ build_commitments sha256 out.settlement_update
    pub accounts : List AccountWitnessSecret
    pub witnessed : All2 (IsWitnessed sha256 settlement) accounts out.witness.accounts
    pub marked :
        mark_included out.settlement_update.batch_id
          (map (λ d. d.deposit_id) deposits)
          (map (λ w. w.withdraw_id) withdrawals)
          s.repository
        ≡ (ok tt, s'.repository)

  assemble_batch_sound :
      (old_root new_root : Text) (bounded : List PendingSettlementTransition)
      (secrets : List AccountSecret) (deposits : List PendingDepositTransition)
      (withdrawals : List PendingWithdrawalTransition) (out : BuildOutput)
      (s s' : OffchainSettlementService)
      → assemble_batch sha256 old_root new_root bounded secrets deposits withdrawals s
        ≡ (ok out, s')
      → IsAssembled old_root new_root deposits withdrawals out s s'
  unfolding assemble_batch
  assemble_batch_sound old_root new_root bounded secrets deposits withdrawals out s s' h =
      let settlement : SettlementInputs = record {
        old_state_root = old_root;
        new_state_root = new_root;
        deposits = map deposit_record_of deposits;
        withdrawals = map withdrawal_input_of withdrawals;
      } in
      let built = build_settlement sha256 settlement s.settlement_builder in
      elim (Result-cases built.0) [
        | inr (e, bad) ↦ absurd (ground arith)
        | inl (upd, settled) ↦
            elim (Result-cases (build_witness_accounts_from_pending_transitions bounded secrets)) [
              | inr (e, bad) ↦ absurd (ground arith)
              | inl (accounts, found) ↦
                  elim (Result-cases (
                    build_witness sha256
                      (record { settlement = settlement; accounts = accounts; state_path = [] }))) [
                        | inr (e, bad) ↦ absurd (ground arith)
                        | inl (wit, witnessed) ↦
                            let marked =
                              mark_included upd.batch_id (map (λ d. d.deposit_id) deposits)
                                (map (λ w. w.withdraw_id) withdrawals) s.repository in
                            elim (Result-cases marked.0) [
                              | inr (e, bad) ↦ absurd (ground arith)
                              | inl (u, done) ↦
                                  let ((denom, settleable), update, next) =
                                    (build_settlement_iff sha256 settlement s.settlement_builder
                                        built.1 upd).0
                                      (ground arith) in
                                  let whole : out ≡ record {
                                    settlement_update = upd;
                                    batch_commitments = build_commitments sha256 upd;
                                    witness = wit;
                                  } =
                                    ground arith in
                                  record {
                                    settlement = settlement;
                                    inputs = refl;
                                    denom = denom;
                                    settleable = settleable;
                                    update = ap (λ o. o.settlement_update) whole ∙ update;
                                    commitments = ground (arith, whole);
                                    accounts = accounts;
                                    witnessed =
                                        subst
                                          (λ o.
                                            All2 (IsWitnessed sha256 settlement) accounts
                                              o.witness.accounts)
                                          (sym whole)
                                          (build_witness_sound sha256
                                            (record {
                                              settlement = settlement;
                                              accounts = accounts;
                                              state_path = [];
                                            })
                                            wit witnessed).0;
                                    marked = ground (arith, whole);
                                  }
                            ]
                      ]
            ]
      ]

  -- A pending batch that the service has built: from the cursor, the pending rows in the order of
  -- their chain, and the prefix with at most one withdrawal.
  pub record IsPendingBatch (out : BuildOutput) (s s' : OffchainSettlementService) : Type 0 where
    pub cursor : OffchainStateCursor
    pub at_cursor : (get_or_init_cursor s).0 ≡ ok cursor
    pub pending_deposits : List PendingDepositTransition
    pub pending_withdrawals : List PendingWithdrawalTransition
    pub listed :
        (list_pending_settlement (get_or_init_cursor s).1).0
        ≡ ok (pending_deposits, pending_withdrawals)
    pub bounded : List PendingSettlementTransition
    pub rest : List PendingSettlementTransition
    pub ordered :
        order_pending_settlement_transitions cursor.committed_root pending_deposits
          pending_withdrawals
        ≡ ok (bounded ++ rest)
    pub chain : IsChain cursor.committed_root bounded
    pub single : withdrawals_in bounded ≤ 1
    pub longest : (withdrawals_in bounded ≡ 1) ⊎ (rest ≡ [])
    pub new_root : Text
    pub ends : last_root bounded ≡ some new_root
    pub assembled :
        IsAssembled cursor.committed_root new_root
          (select_where (λ d. member d.deposit_id (selected_deposits bounded)) pending_deposits)
          (select_where
            (λ w. member w.withdraw_id (selected_withdrawals bounded))
            pending_withdrawals)
          out
          (list_pending_settlement (get_or_init_cursor s).1).1
          s'

  -- A batch that BuildPendingBatch returns takes a beginning of the order of the pending rows, a
  -- chain from the cursor's committed root, with one withdrawal or else the whole order with none:
  -- its update is the builder's for the selected rows between that root and the last transition's
  -- root, its commitments are the update's, its witness accounts are checked against the settlement
  -- as the witness builder does, and the store afterwards is that before with the selected rows
  -- marked as included in the batch.
  pub build_pending_batch_sound :
      (secrets : List AccountSecret) (out : BuildOutput) (s s' : OffchainSettlementService)
      → build_pending_batch sha256 secrets s ≡ (ok out, s')
      → IsPendingBatch out s s'
  unfolding build_pending_batch
  build_pending_batch_sound secrets out s s' h = elim (Bool-cases s.has_repository) [
    | inr bad ↦ absurd (ground arith)
    | inl has ↦
        let located = get_or_init_cursor s in
        elim (Result-cases located.0) [
          | inr (e, bad) ↦ absurd (ground arith)
          | inl (cursor, at) ↦
              let pending = list_pending_settlement located.1 in
              elim (Result-cases pending.0) [
                | inr (e, bad) ↦ absurd (ground arith)
                | inl ((ds, ws), listed) ↦ elim (Bool-cases (nothing_pending ds ws)) [
                  | inl bad ↦ absurd (ground arith)
                  | inr _ ↦
                      elim (Result-cases
                        (order_pending_settlement_transitions cursor.committed_root ds ws)) [
                          | inr (e, bad) ↦ absurd (ground arith)
                          | inl (ordered, good) ↦
                              let bounded = bound_single_withdrawal_prefix ordered in
                              let b = bound_single_withdrawal_prefix-IsBoundedPrefix ordered in
                              let (c, _, _) =
                                order_sound cursor.committed_root ds ws ordered good in
                              elim (Option-cases (last_root bounded)) [
                                | inl bad ↦ absurd (ground arith)
                                | inr (new_root, ends) ↦ record {
                                  cursor = cursor;
                                  at_cursor = at;
                                  pending_deposits = ds;
                                  pending_withdrawals = ws;
                                  listed = listed;
                                  bounded = bounded;
                                  rest = b.rest;
                                  ordered = good ∙ ap ok b.split;
                                  chain =
                                      IsChain-prefix cursor.committed_root bounded b.rest
                                        (subst (IsChain cursor.committed_root) b.split c);
                                  single = b.at_most_one;
                                  longest = b.longest;
                                  new_root = new_root;
                                  ends = ends;
                                  assembled =
                                      assemble_batch_sound cursor.committed_root new_root bounded
                                        secrets _ _ out pending.1 s' (ground arith);
                                }
                              ]
                        ]
                ]
              ]
        ]
  ]
